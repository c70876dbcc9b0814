-- ===== src/Listen/Loans.antt =====
-- The connections that a listener borrows from the pool and gives back.
use hellnet_lib_database.Prelude.{
  ℕ, suc, ◌+◌, ◌≡◌, refl, sym, ap, ◌∙◌, Bool, true, false, ◌==◌, none, some, List, [], ◌∷◌, inl,
  inr, Bool-cases, arith, if◌then◌else◌,
}
use hellnet_lib_database.World.{
  Handle, Event, Trace, acquire, release_conn, Reply, ok, err, Env, Ctx, Reply-cases,
}
use hellnet_lib_database.Core.Growth.{is_statement, is_quiet}
use hellnet_lib_database.Listen.{Surroundings}
use hellnet_lib_database.Listen.Kept.{Kept, handle_of}

-- whether the newest event of a trace borrowed the connection `x`, and gave it back
abbrev pub is_lent : Handle → Reply Handle → Bool
is_lent x (ok h) = h == x
is_lent x (err e) = false

abbrev pub is_loan : Env → Handle → Trace → Bool
is_loan env x (acquire pool ctx ∷ t) = is_lent x (env.handle (acquire pool ctx ∷ t))
is_loan env x _ = false

abbrev pub is_return : Handle → Event → Bool
is_return x (release_conn h) = h == x
is_return x _ = false

-- How often the trace borrowed the connection, and gave it back.
abbrev pub loans : Env → Handle → Trace → ℕ
loans env x [] = 0
loans env x (e ∷ t) = let rest = loans env x t in if is_loan env x (e ∷ t) then suc rest else rest

abbrev pub returns : Handle → Trace → ℕ
returns x [] = 0
returns x (e ∷ t) = let rest = returns x t in if is_return x e then suc rest else rest

abbrev pub occurrences : Handle → List Handle → ℕ
occurrences x [] = 0
occurrences x (h ∷ hs) = let rest = occurrences x hs in if h == x then suc rest else rest

-- what a trace has lent beyond what it had lent by the trace `t0`
abbrev pub Balanced : Env → Handle → Trace → List Handle → Trace → Type 0
Balanced env x t0 hs t =
    loans env x t + returns x t0 ≡ returns x t + (occurrences x hs + loans env x t0)

is_quiet-ne_loan :
    (env : Env) (x : Handle) (e : Event) (t : Trace)
    → is_quiet e ≡ true
    → (is_loan env x (e ∷ t) ≡ false) × (is_return x e ≡ false)
is_quiet-ne_loan env x (acquire pool ctx) t q = cc q
is_quiet-ne_loan env x (release_conn h) t q = cc q
is_quiet-ne_loan env x e t q = ground arith

is_statement-ne_loan :
    (env : Env) (x : Handle) (e : Event) (t : Trace)
    → is_statement e ≡ true
    → (is_loan env x (e ∷ t) ≡ false) × (is_return x e ≡ false)
is_statement-ne_loan env x (acquire pool ctx) t q = cc q
is_statement-ne_loan env x (release_conn h) t q = cc q
is_statement-ne_loan env x e t q = ground arith

is_loan-refused :
    (env : Env) (x pool : Handle) (ctx : Ctx) (t : Trace)
    → handle_of (env.handle (acquire pool ctx ∷ t)) ≡ none
    → is_loan env x (acquire pool ctx ∷ t) ≡ false
is_loan-refused env x pool ctx t h = elim (Reply-cases (env.handle (acquire pool ctx ∷ t))) [
  | inl (y, e) ↦ let q = sym h ∙ ap handle_of e in cc q
  | inr (y, e) ↦ rw (e, is_loan) refl
]

is_loan-borrowed :
    (env : Env) (x pool : Handle) (ctx : Ctx) (h : Handle) (t : Trace)
    → handle_of (env.handle (acquire pool ctx ∷ t)) ≡ some h
    → is_loan env x (acquire pool ctx ∷ t) ≡ (h == x)
is_loan-borrowed env x pool ctx h t b = elim (Reply-cases (env.handle (acquire pool ctx ∷ t))) [
  | inl (y, e) ↦ let q = sym b ∙ ap handle_of e in rw (e, is_loan) (cc q)
  | inr (y, e) ↦ let q = sym b ∙ ap handle_of e in cc q
]

pub Balanced-Kept :
    (env : Env) (l : Surroundings) (x : Handle) (t0 : Trace)
    → Kept env l (λ _. Unit) (Balanced env x t0)
Balanced-Kept env l x t0 = record {
  grow = record {
    here = λ t hs p. p;
    chain = λ j k t u v a b hs p. b hs (a hs p);
    more = λ j k t u a hs p. a hs p;
    quiet = λ e t q hs p. let n = is_quiet-ne_loan env x e t q in rw (n.0, n.1) p;
    sent = λ e t q hs p. let n = is_statement-ne_loan env x e t q in rw (n.0, n.1) p;
  };
  informed = λ s hs t p. p;
  slept = λ d hs t a p. p;
  silent = λ h ctx hs t e p. p;
  delivered = λ h ctx payload hs t e p. p;
  refused = λ pool ctx hs t e p. let n = is_loan-refused env x pool ctx t e in rw n p;
  borrowed = λ pool ctx h hs t e p.
      let n = is_loan-borrowed env x pool ctx h t e in
      elim (Bool-cases (h == x)) [ inl y ↦ rw (n, y) (omega (arith, p)) | inr f ↦ rw (n, f) p ];
  returned = λ h hs t p. ground arith;
  replaced = λ h q hs t p. ground arith;
}
