-- ===== src/Server/Attempts/Once.antt =====
-- That no key of a provider is tried twice for one request.
use claude_code_gateway.Prelude.{
  ℕ, ◌≤◌, String, true, List, [], ◌∷◌, ◌++◌, ◌≡◌, refl, inl, inr, In, Distinct, map, length, arith,
  subst, sym, either_branch, ◌==◌, string_eq, length-append,
}
use claude_code_gateway.Server.Attempts.{
  World, Call, Work, delivered, refused, blocked, crashed, Progress, ended, onward, attempts,
  has_key,
}
use claude_code_gateway.Server.Attempts.Counting.{Account, Fresh, attempts-Account}

abbrev pub work_of : {W R : Type 0} → Progress W R → Work W
work_of (ended a w) = w
work_of (onward left w) = w

abbrev pub keys_of : List Call → List String
keys_of as' = map (λ (a : Call). a.key) as'

has_key-In : (k : String) (ks : List String) → In k ks → has_key k ks ≡ true
has_key-In k [] h = elim h [ ]
has_key-In k (j ∷ ks) (inl same) = ground (arith, (string_eq.same_key_iff j k).1 (sym same))
has_key-In k (j ∷ ks) (inr later) =
    either_branch (λ b. b ≡ true) (j == k) (λ _. refl) (λ _. has_key-In k ks later)

Fresh-not_In :
    (k : String) (tried : List String) (as' : List Call)
    → In k tried
    → Fresh tried as'
    → ¬ In k (keys_of as')
Fresh-not_In k tried [] known f h = h
Fresh-not_In k tried (a ∷ as') known f (inl same) =
    let seen : has_key a.key tried ≡ true =
      subst (λ j. has_key j tried ≡ true) same (has_key-In k tried known) in
    cc
Fresh-not_In k tried (a ∷ as') known f (inr later) =
    Fresh-not_In k (a.key ∷ tried) as' (inr known) f.1 later

Fresh-Distinct : (tried : List String) (as' : List Call) → Fresh tried as' → Distinct (keys_of as')
Fresh-Distinct tried [] f = tt
Fresh-Distinct tried (a ∷ as') f =
    (Fresh-not_In a.key (a.key ∷ tried) as' (inl refl) f.1, Fresh-Distinct (a.key ∷ tried) as' f.1)

-- Each attempt by a key of its own, within the attempts that there are.
abbrev pub Apart : {W R : Type 0} → ℕ → List Call → Progress W R → Type 0
Apart left log p =
    (new : List Call) × ((work_of p).calls ≡ log ++ new)
    × Distinct (keys_of new)
    × (length new ≤ left)

module _ {W R : Type 0} (world : World W R) where
  Account-Apart :
      (left : ℕ) (log : List Call) (st : ℕ) (p : Progress W R)
      → Account world [] left log st p
      → Apart left log p
  Account-Apart left log st (ended (delivered x) w) s = (
    s.new ++ s.last ∷ [],
    s.logged,
    Fresh-Distinct [] (s.new ++ s.last ∷ []) s.fresh,
    omega (arith, length-append {0} s.new (s.last ∷ []), s.bounded),
  )
  Account-Apart left log st (ended (refused x) w) s = (
    s.new ++ s.last ∷ [],
    s.logged,
    Fresh-Distinct [] (s.new ++ s.last ∷ []) s.fresh,
    omega (arith, length-append {0} s.new (s.last ∷ []), s.bounded),
  )
  Account-Apart left log st (ended blocked w) s = (
    s.new ++ s.last ∷ [],
    s.logged,
    Fresh-Distinct [] (s.new ++ s.last ∷ []) s.fresh,
    omega (arith, length-append {0} s.new (s.last ∷ []), s.bounded),
  )
  Account-Apart left log st (ended crashed w) (f, h) =
      (f.new, f.logged, Fresh-Distinct [] f.new f.fresh, f.bounded)
  Account-Apart left log st (onward left' w) (f, h) =
      (f.new, f.logged, Fresh-Distinct [] f.new f.fresh, f.bounded)

  pub attempts-Apart :
      (path payload : String) (left : ℕ) (w : Work W)
      → Apart left w.calls (attempts world path payload left [] w)
  attempts-Apart path payload left w =
      Account-Apart left w.calls w.last_status (attempts world path payload left [] w)
        (attempts-Account world path payload left [] w)
