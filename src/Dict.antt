-- ===== src/Dict.antt =====
-- Python's `dict`: an association list in insertion order, over any key with an equality test.
use bqemulator.Prelude.{
  ◌⊎◌, suc, ◌≡◌, false, refl, Bool, Option, none, some, List, [], ◌∷◌, arith, if◌then◌else◌,
  is_some, length, Eq, ◌==◌, ==_iff, ==_refl,
}

abbrev pub Dict {ℓ κ} : Type ℓ → Type κ → Type (ℓ ⊔ κ)
Dict K V = List (K × V)

module _ {ℓ κ} {K : Type ℓ} {V : Type κ} ⦃e : Eq K⦄ where
  -- d.get(k)
  unfoldable pub get : Dict K V → K → Option V
  get [] k = none
  get ((j, v) ∷ d) k = if j == k then some v else get d k

  -- k in d
  abbrev pub has : Dict K V → K → Bool
  has d k = is_some (get d k)

  -- d[k] = v: the place of an old key is kept, a new key goes to the end.
  unfoldable pub put : Dict K V → K → V → Dict K V
  put [] k v = (k, v) ∷ []
  put ((j, w) ∷ d) k v = let rest = put d k v in if j == k then (j, v) ∷ d else (j, w) ∷ rest

  -- d.pop(k, None), del d[k]
  unfoldable pub remove : Dict K V → K → Dict K V
  remove [] k = []
  remove ((j, v) ∷ d) k = let rest = remove d k in if j == k then rest else (j, v) ∷ rest

  -- d.values()
  unfoldable pub values : Dict K V → List V
  values [] = []
  values ((k, v) ∷ d) = v ∷ values d

  -- The entries of `d` that pass the test, in order.
  unfoldable pub keep : (K → V → Bool) → Dict K V → Dict K V
  keep p [] = []
  keep p ((k, v) ∷ d) = let rest = keep p d in if p k v then (k, v) ∷ rest else rest

  pub get-put :
      (d : Dict K V) (k j : K) (v : V) → get (put d k v) j ≡ (if k == j then some v else get d j)
  unfolding get put
  get-put [] k j v = refl
  get-put ((i, w) ∷ d) k j v = ground (arith, ==_iff k j, ==_iff i k, ==_iff i j, get-put d k j v)

  pub get-remove :
      (d : Dict K V) (gone k : K) → get (remove d gone) k ≡ (if gone == k then none else get d k)
  unfolding get remove
  get-remove [] gone k = ground arith
  get-remove ((i, w) ∷ d) gone k =
      ground (arith, ==_iff gone k, ==_iff i gone, ==_iff i k, get-remove d gone k)

  pub get-put_self : (d : Dict K V) (k : K) (v : V) → get (put d k v) k ≡ some v
  get-put_self d k v = simp (get-put, ==_refl)

  pub length-put :
      (d : Dict K V) (k : K) (v : V)
      → length (put d k v) ≡ (if has d k then length d else suc (length d))
  unfolding get put
  length-put [] k v = refl
  length-put ((i, w) ∷ d) k v = ground (arith, length-put d k v)

  -- What is found after a write is what was written, or what was there.
  pub get-put_cases :
      (d : Dict K V) (k j : K) (v w : V)
      → get (put d k v) j ≡ some w
      → ((k ≡ j) × (v ≡ w)) ⊎ (get d j ≡ some w)
  get-put_cases d k j v w h = ground (arith, get-put d k j v, ==_iff k j)

-- No key stands twice, as in every dict.
module _ {K V : Type 0} ⦃e : Eq K⦄ where
  abbrev pub Unique : Dict K V → Type 0
  Unique [] = Unit
  Unique ((k, v) ∷ d) = (get d k ≡ none) × Unique d

  -- What a missing key says of the first entry and the others.
  pub has-cons :
      (j k : K) (v : V) (d : Dict K V)
      → has ((j, v) ∷ d) k ≡ false
      → ((j == k) ≡ false) × (has d k ≡ false)
  unfolding get
  has-cons j k v d h = ground arith
