-- ===== src/Provider/Transform/Untouched.antt =====
-- The fields of a request that no transformer of the configuration names.
use claude_code_gateway.Prelude.{
  String, Bool, false, Option, none, some, List, [], ◌∷◌, ◌≡◌, refl, inl, inr, ◌⊎◌, arith, ◌∙◌,
  subst, if◌then◌else◌, ◌==◌, string_eq, ◌||◌, either_branch, either_branches,
}
use claude_code_gateway.Prelude.Floats.{Floats}
use claude_code_gateway.Prelude.GoMap.{GoMap, get, delete, get-put, get-delete}
use claude_code_gateway.Prelude.Int.{ℤ, pos, leb_ℤ}
use claude_code_gateway.Prelude.Text.{cut, trim_space}
use claude_code_gateway.Provider.Transform.{
  BadSpec, TransformFunc, Value, number, text, flag, null, list, object, no_values, item, cut,
  split, set_field, capped, max_tokens_cap, drop_keys, with_prefix, prefixed, system_prefix,
  apply_transforms, parse_scalar, cap_of, parse_spec, and_more, parse_transforms,
}

abbrev pub is_among : String → List String → Bool
is_among j [] = false
is_among j (k ∷ ks) = trim_space k == j || is_among j ks

-- Whether a specification names a field, by its name and argument; and a list of them.
abbrev pub touches : String → String → String → Bool
touches name arg j =
    if name == "set"
    then (cut b'=' arg).0 == j
    else if name == "max_tokens_cap"
    then "max_tokens" == j
    else if name == "reasoning_effort"
    then "reasoning_effort" == j
    else if name == "drop_keys"
    then is_among j (split b',' arg)
    else "messages" == j

abbrev pub touched : List String → String → Bool
touched [] j = false
touched (spec ∷ specs) j = touches (cut b':' spec).0 (cut b':' spec).1 j || touched specs j

module _ (F : Floats) where
  abbrev Keeps : String → TransformFunc F → Type 0
  Keeps j f = (m : GoMap String (Value F)) → get (f m) j ≡ get m j

  -- What parses to a transformer keeps a field that it does not name.
  abbrev Fits : String → BadSpec ⊎ TransformFunc F → Bool → Type 0
  Fits j (inl e) b = Unit
  Fits j (inr f) b = b ≡ false → Keeps j f

  set_field-Keeps : (k j : String) (v : Value F) → (k == j) ≡ false → Keeps j (set_field F k v)
  unfolding set_field
  set_field-Keeps k j v h m = ground (arith, get-put m k j v, h)

  capped-Keeps :
      (j : String) (n : F.Float) (o : Option (Value F)) (m : GoMap String (Value F))
      → ("max_tokens" == j) ≡ false
      → get (capped F n o m) j ≡ get m j
  capped-Keeps j n none m h = refl
  capped-Keeps j n (some (number mt)) m h = ground (arith, get-put m "max_tokens" j (number n), h)
  capped-Keeps j n (some (text t)) m h = refl
  capped-Keeps j n (some (flag b)) m h = refl
  capped-Keeps j n (some null) m h = refl
  capped-Keeps j n (some (list vs)) m h = refl
  capped-Keeps j n (some (object fs)) m h = refl

  drop_keys-Keeps :
      (j : String) (ks : List String) → is_among j ks ≡ false → Keeps j (drop_keys F ks)
  unfolding drop_keys
  drop_keys-Keeps j [] h m = refl
  drop_keys-Keeps j (k ∷ ks) h m =
      drop_keys-Keeps j ks (ground (arith, h)) (delete m (trim_space k))
      ∙ ground (arith, get-delete m (trim_space k) j, h)

  with_prefix-Keeps :
      (j s : String) (o : Option (Value F)) (m : GoMap String (Value F))
      → ("messages" == j) ≡ false
      → get (with_prefix F s o m) j ≡ get m j
  with_prefix-Keeps j s none m h = refl
  with_prefix-Keeps j s (some (number mt)) m h = refl
  with_prefix-Keeps j s (some (text t)) m h = refl
  with_prefix-Keeps j s (some (flag b)) m h = refl
  with_prefix-Keeps j s (some null) m h = refl
  with_prefix-Keeps j s (some (list no_values)) m h = refl
  with_prefix-Keeps j s (some (list (item v rest))) m h =
      ground (arith, get-put m "messages" j (list (prefixed F s v rest)), h)
  with_prefix-Keeps j s (some (object fs)) m h = refl

  Keeps-apply_transforms :
      (j : String) (f : TransformFunc F) (fs : List (TransformFunc F))
      → Keeps j f
      → Keeps j (apply_transforms F fs)
      → Keeps j (apply_transforms F (f ∷ fs))
  unfolding apply_transforms
  Keeps-apply_transforms j f fs one more m = more (f m) ∙ one m

  cap_of-Fits : (j arg : String) (o : Option ℤ) → Fits j (cap_of F arg o) ("max_tokens" == j)
  unfolding max_tokens_cap
  cap_of-Fits j arg none = tt
  cap_of-Fits j arg (some n) =
      either_branch (λ r. Fits j r ("max_tokens" == j)) (leb_ℤ n (pos 0)) (λ _. tt)
        (λ _ h m. capped-Keeps j (F.from_int n) (get m "max_tokens") m h)

  module _ (atoi : String → Option ℤ) (parse_float : String → Option F.Float) where
    parse_spec-Fits :
        (j name arg : String) → Fits j (parse_spec F atoi parse_float name arg) (touches name arg j)
    unfolding parse_spec system_prefix
    parse_spec-Fits j name arg =
        let (k, v, ok) = cut b'=' arg in
        either_branches (Fits j) (name == "set")
          (λ _.
            either_branch (λ r. Fits j r (k == j)) ok
              (λ _.
                either_branch (λ r. Fits j r (k == j)) (k == "") (λ _. tt)
                  (λ _ h. set_field-Keeps k j (parse_scalar F atoi parse_float v) h))
              (λ _. tt))
          (λ _.
            either_branches (Fits j) (name == "max_tokens_cap") (λ _. cap_of-Fits j arg (atoi arg))
              (λ _.
                either_branches (Fits j) (name == "reasoning_effort")
                  (λ _.
                    either_branch (λ r. Fits j r ("reasoning_effort" == j)) (arg == "") (λ _. tt)
                      (λ _ h. set_field-Keeps "reasoning_effort" j (text arg) h))
                  (λ _.
                    either_branches (Fits j) (name == "drop_keys")
                      (λ _. drop_keys-Keeps j (split b',' arg))
                      (λ _.
                        either_branch (λ r. Fits j r ("messages" == j)) (name == "system_prefix")
                          (λ _ h m. with_prefix-Keeps j arg (get m "messages") m h) (λ _. tt)))))

    and_more-Fits :
        (j : String) (o : BadSpec ⊎ TransformFunc F) (rest : BadSpec ⊎ List (TransformFunc F))
        (b c : Bool) (fs : List (TransformFunc F))
        → Fits j o b
        → ((fs' : List (TransformFunc F))
            → rest ≡ inr fs'
            → c ≡ false
            → Keeps j (apply_transforms F fs'))
        → and_more F o rest ≡ inr fs
        → (b || c) ≡ false
        → Keeps j (apply_transforms F fs)
    and_more-Fits j (inl e) rest b c fs one more parsed h = absurd (ground arith)
    and_more-Fits j (inr f) (inl e) b c fs one more parsed h = absurd (ground arith)
    and_more-Fits j (inr f) (inr fs') b c fs one more parsed h =
        let same : f ∷ fs' ≡ fs = cc in
        let first : b ≡ false = ground (arith, h) in
        let others : c ≡ false = ground (arith, h) in
        subst (λ l. Keeps j (apply_transforms F l)) same
          (Keeps-apply_transforms j f fs' (one first) (more fs' refl others))

    -- A field that none of the specifications names is as it was, whatever else the transformers change.
    pub parse_transforms-touched :
        (specs : List String) (fs : List (TransformFunc F)) (m : GoMap String (Value F))
        (j : String)
        → parse_transforms F atoi parse_float specs ≡ inr fs
        → touched specs j ≡ false
        → get (apply_transforms F fs m) j ≡ get m j
    unfolding parse_transforms apply_transforms
    parse_transforms-touched [] fs m j parsed h =
        let same : [] ≡ fs = cc in subst (λ l. get (apply_transforms F l m) j ≡ get m j) same refl
    parse_transforms-touched (spec ∷ specs) fs m j parsed h =
        let (name, arg, found) = cut b':' spec in
        and_more-Fits j (parse_spec F atoi parse_float name arg)
          (parse_transforms F atoi parse_float specs) (touches name arg j) (touched specs j) fs
          (parse_spec-Fits j name arg) (λ fs' p c m'. parse_transforms-touched specs fs' m' j p c)
          parsed h m
