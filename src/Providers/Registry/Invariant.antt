-- ===== src/Providers/Registry/Invariant.antt =====
-- providers/registry.go: what a registration keeps.
use mathlib.Core.Path.{subst}
use openharness.Prelude.{
  ℕ, String, true, ◌≡◌, ◌≢◌, refl, sym, ap, ◌∙◌, none, some, List, ◌∷◌, Has, eq_iff, ◌==◌,
  Bool-cases, Option-cases, ◌⊎◌, inl, inr,
}
use openharness.Prelude.GoMap
use openharness.Prelude.GoMap.{GoMap, get-empty, get-put_self, get-put_ne, get-put_cases}
use openharness.Providers.Registry.{Provider, Registry, close_one, register}

-- The registrations so far, and what is registered and closed after them.
pub record IsValid (seen : List Provider) (r : Registry) : Type 0 where
  pub named :
      (k : String) (p : Provider) → GoMap.get r.providers k ≡ some p → (p.name ≡ k) × Has p seen
  pub one_instance :
      (p q : Provider) → Has p seen → Has q seen → p.instance_id ≡ q.instance_id → p ≡ q
  pub gone :
      (p : Provider)
      → Has p seen
      → Has p.instance_id r.closed
      → GoMap.get r.providers p.name ≢ some p
  pub known : (i : ℕ) → Has i r.closed → (p : Provider) × Has p seen × (p.instance_id ≡ i)
  pub settled :
      (p : Provider)
      → Has p seen
      → p.closable ≡ true
      → Has p.instance_id r.closed ⊎ (GoMap.get r.providers p.name ≡ some p)

-- No earlier registration was of this instance.
abbrev pub IsNew : Provider → List Provider → Type 0
IsNew p seen = (q : Provider) → Has q seen → q.instance_id ≢ p.instance_id

Has-close_one :
    (i : ℕ) (old : Provider) (closed : List ℕ)
    → Has i (close_one old closed)
    → ((old.closable ≡ true) × (i ≡ old.instance_id)) ⊎ Has i closed
unfolding close_one
Has-close_one i old closed h = elim (Bool-cases old.closable) [
  | inl can ↦ first can (rw (can, close_one) at h)
  | inr cannot ↦ inr (rw (cannot, close_one) at h)
]
  where
    first :
        old.closable ≡ true
        → Has i (old.instance_id ∷ closed)
        → ((old.closable ≡ true) × (i ≡ old.instance_id)) ⊎ Has i closed
    first can (inl e) = inl (can, e)
    first can (inr t) = inr t

close_one-keeps :
    (i : ℕ) (old : Provider) (closed : List ℕ) → Has i closed → Has i (close_one old closed)
unfolding close_one
close_one-keeps i old closed h = elim (Bool-cases old.closable) [
  | inl can ↦ rw (can, close_one) (inr h)
  | inr cannot ↦ rw (cannot, close_one) h
]

close_one-closes :
    (old : Provider) (closed : List ℕ)
    → old.closable ≡ true
    → Has old.instance_id (close_one old closed)
unfolding close_one
close_one-closes old closed can = rw (can, close_one) (inl refl)

register_new :
    (p : Provider) (r : Registry)
    → GoMap.get r.providers p.name ≡ none
    → register p r ≡ record { providers = GoMap.put r.providers p.name p; closed = r.closed }
unfolding register
register_new p r absent = rw (absent, register) refl

register_over :
    (p old : Provider) (r : Registry)
    → GoMap.get r.providers p.name ≡ some old
    → register p r
      ≡ record { providers = GoMap.put r.providers p.name p; closed = close_one old r.closed }
unfolding register
register_over p old r found = rw (found, register) refl

-- What a registration has in any case: the new instance is where it belongs, and the others that are
-- registered were so before.
module _ (seen : List Provider) (r : Registry) (p : Provider) (v : IsValid seen r)
    (new : IsNew p seen) where
  named_after :
      (k : String) (q : Provider)
      → GoMap.get (GoMap.put r.providers p.name p) k ≡ some q
      → (q.name ≡ k) × Has q (p ∷ seen)
  named_after k q found = elim (get-put_cases r.providers p.name k p found) [
    | inl (at, is) ↦ (ap (λ (x : Provider). x.name) (sym is) ∙ at, inl (sym is))
    | inr (_, old) ↦ let (n, h) = v.named k q old in (n, inr h)
  ]

  one_instance_after :
      (q t : Provider) → Has q (p ∷ seen) → Has t (p ∷ seen) → q.instance_id ≡ t.instance_id → q ≡ t
  one_instance_after q t (inl a) (inl b) e = a ∙ sym b
  one_instance_after q t (inl a) (inr b) e =
      absurd (new t b (sym e ∙ ap (λ (x : Provider). x.instance_id) a))
  one_instance_after q t (inr a) (inl b) e =
      absurd (new q a (e ∙ ap (λ (x : Provider). x.instance_id) b))
  one_instance_after q t (inr a) (inr b) e = v.one_instance q t a b e

  -- A closed instance that was there before is not registered after.
  still_gone :
      (q : Provider)
      → Has q seen
      → GoMap.get r.providers q.name ≢ some q
      → GoMap.get (GoMap.put r.providers p.name p) q.name ≢ some q
  still_gone q h out found = elim (get-put_cases r.providers p.name q.name p found) [
    | inl (_, is) ↦ new q h (ap (λ (x : Provider). x.instance_id) (sym is))
    | inr (_, old) ↦ out old
  ]

  gone_before :
      (q : Provider)
      → Has q (p ∷ seen)
      → Has q.instance_id r.closed
      → GoMap.get (GoMap.put r.providers p.name p) q.name ≢ some q
  gone_before q (inl e) c =
      let (t, h, same) = v.known q.instance_id c in
      absurd (new t h (same ∙ ap (λ (x : Provider). x.instance_id) e))
  gone_before q (inr h) c = still_gone q h (v.gone q h c)

  gone_over :
      (old : Provider)
      → GoMap.get r.providers p.name ≡ some old
      → (q : Provider) → Has q (p ∷ seen)
      → Has q.instance_id (close_one old r.closed)
      → GoMap.get (GoMap.put r.providers p.name p) q.name ≢ some q
  gone_over old found q h c = elim (Has-close_one q.instance_id old r.closed c) [
    | inr before ↦ gone_before q h before
    | inl (_, same) ↦ replaced h same
  ]
    where
      replaced :
          Has q (p ∷ seen)
          → q.instance_id ≡ old.instance_id
          → GoMap.get (GoMap.put r.providers p.name p) q.name ≢ some q
      replaced (inl e) same =
          absurd (
            new old (v.named p.name old found).1
              (sym same ∙ ap (λ (x : Provider). x.instance_id) e))
      replaced (inr at) same =
          let (name, there) = v.named p.name old found in
          let is = v.one_instance q old at there same in
          λ now. elim (get-put_cases r.providers p.name q.name p now) [
            | inl (_, e) ↦ new q at (ap (λ (x : Provider). x.instance_id) (sym e))
            | inr (apart, _) ↦ apart (sym (ap (λ (x : Provider). x.name) is ∙ name))
          ]

  known_over :
      (old : Provider)
      → GoMap.get r.providers p.name ≡ some old
      → (i : ℕ) → Has i (close_one old r.closed)
      → (q : Provider) × Has q (p ∷ seen) × (q.instance_id ≡ i)
  known_over old found i h = elim (Has-close_one i old r.closed h) [
    | inl (_, e) ↦ (old, inr (v.named p.name old found).1, sym e)
    | inr before ↦ let (q, at, is) = v.known i before in (q, inr at, is)
  ]

  -- A provider is closed by then, or it is registered after, unless it is the one replaced.
  settled_after :
      (closed : List ℕ)
      → ((i : ℕ) → Has i r.closed → Has i closed)
      → ((old : Provider)
          → GoMap.get r.providers p.name ≡ some old
          → old.closable ≡ true
          → Has old.instance_id closed)
      → (q : Provider) → Has q (p ∷ seen)
      → q.closable ≡ true
      → Has q.instance_id closed ⊎ (GoMap.get (GoMap.put r.providers p.name p) q.name ≡ some q)
  settled_after closed keeps closes q (inl e) can = inr (rw e (get-put_self r.providers p.name p))
  settled_after closed keeps closes q (inr h) can = elim (v.settled q h can) [
    | inl c ↦ inl (keeps q.instance_id c)
    | inr now ↦ elim (Bool-cases (p.name == q.name)) [
      | inl same ↦ inl (
          closes q
            (subst (λ j. GoMap.get r.providers j ≡ some q) (sym ((eq_iff p.name q.name).0 same))
              now)
            can)
      | inr other ↦ inr (
          get-put_ne r.providers p.name q.name p (λ e. cc (other, (eq_iff p.name q.name).1 e))
          ∙ now)
    ]
  ]

  pub register-IsValid : IsValid (p ∷ seen) (register p r)
  register-IsValid = elim (Option-cases (GoMap.get r.providers p.name)) [
    | inl absent ↦ rw (register_new p r absent) record {
      named = named_after;
      one_instance = one_instance_after;
      gone = gone_before;
      known = λ i h. let (q, at, is) = v.known i h in (q, inr at, is);
      settled = settled_after r.closed (λ i h. h) (λ old found can. absurd (cc (absent, found)));
    }
    | inr (old, found) ↦ rw (register_over p old r found) record {
      named = named_after;
      one_instance = one_instance_after;
      gone = gone_over old found;
      known = known_over old found;
      settled =
          settled_after (close_one old r.closed) (λ i h. close_one-keeps i old r.closed h)
            (λ other at can.
              let is : other ≡ old = cc (at, found) in
              subst (λ (x : Provider). Has x.instance_id (close_one old r.closed)) (sym is)
                (close_one-closes old r.closed (ap (λ (x : Provider). x.closable) (sym is) ∙ can)));
    }
  ]
