-- ===== src/Statement/Traced/Harmless.antt =====
-- What a statement's span shows of a statement whose arguments are hidden.
use hellnet_lib_database.Prelude.{◌≡◌, ◌⊎◌, true, String, Option, none, some, List, [], ◌∷◌, all}
use hellnet_lib_database.Text.{Text, codes}
use hellnet_lib_database.Options.{Options}
use hellnet_lib_database.Statement.Name.{is_letter, is_table_char}
use hellnet_lib_database.Statement.Traced.{
  Attribute, system_name, operation_name, namespace, server_address, collection_name, query_text,
  server_port,
}

-- the names of the spans, none of which depends on more than the operation
abbrev pub IsSpanName : String → Type 0
IsSpanName name =
    (name ≡ "db.insert")
    ⊎ ((name ≡ "db.select")
        ⊎ ((name ≡ "db.update")
            ⊎ ((name ≡ "db.delete") ⊎ ((name ≡ "db.transaction") ⊎ (name ≡ "db.query")))))

module _ (o : Options) where
  -- what an attribute may hold: the operation by letters, the table by letters, digits, _ and ., what the
  -- options say, and no text of the query
  abbrev pub IsHarmless : Attribute → Type 0
  IsHarmless (system_name t) = t ≡ codes "postgresql"
  IsHarmless (operation_name t) = all is_letter t ≡ true
  IsHarmless (namespace t) = t ≡ o.database
  IsHarmless (server_address t) = t ≡ o.host
  IsHarmless (server_port n) = n ≡ o.port
  IsHarmless (collection_name t) = all is_table_char t ≡ true
  IsHarmless (query_text t) = ⊥

  abbrev pub AllHarmless : List Attribute → Type 0
  AllHarmless [] = Unit {0}
  AllHarmless (a ∷ rest) = IsHarmless a × AllHarmless rest

  -- a span, if one was started, has one of the names and such attributes
  abbrev pub HarmlessSpan : Option (String × List Attribute) → Type 0
  HarmlessSpan none = Unit {0}
  HarmlessSpan (some (name, rest)) = IsSpanName name × AllHarmless rest
