-- ===== src/Scripting/Scopes.antt =====
-- What a name means in the frames of scripting/frames.py.
use bqemulator.Prelude.{
  ◌≡◌, ◌⊎◌, inl, inr, refl, true, false, Option, none, some, List, [], ◌∷◌, arith, if◌then◌else◌,
  Text, text_eq, ◌==◌, ==_iff, length,
}
use bqemulator.Dict.{Dict, get, put, get-put, Unique}
use bqemulator.Scripting.Syntax.{Value, unknown_variable}
use bqemulator.Scripting.Frames.{
  Frame, framed, refused, Variable, set, lookup, is_visible, put_all, all_visible, assign_found,
}

module _ {O : Type 0} where
  pub value_in : Option (Variable O) → Option (Value O)
  value_in none = none
  value_in (some x) = some x.value

  lookup-assign_found :
      (f : Frame O) (fs : List (Frame O)) (x : Variable O) (n m : Text) (v : Value O)
      → get f.variables n ≡ some x
      → lookup m (assign_found (some x) n v f ∷ fs) ≡ (if n == m then some v else lookup m (f ∷ fs))
  unfolding lookup assign_found
  lookup-assign_found f fs x n m v h =
      ground (arith, get-put f.variables n m (record x { value = v }))

  -- The set of a name that some frame declares.
  pub Assigns : List (Frame O) → Text → Value O → Type 0
  Assigns fs n v =
      (gs : List (Frame O)) × (set n v fs ≡ framed gs)
      × (length gs ≡ length fs)
      × ((m : Text) → lookup m gs ≡ (if n == m then some v else lookup m fs))

  set_here :
      (f : Frame O) (fs : List (Frame O)) (n : Text) (v : Value O) (x : Variable O)
      → get f.variables n ≡ some x
      → Assigns (f ∷ fs) n v
  unfolding Assigns set
  set_here f fs n v x h =
      (assign_found (some x) n v f ∷ fs, rw h refl, refl, λ m. lookup-assign_found f fs x n m v h)

  set_below :
      (f : Frame O) (fs : List (Frame O)) (n : Text) (v : Value O)
      → get f.variables n ≡ none
      → Assigns fs n v
      → Assigns (f ∷ fs) n v
  unfolding Assigns set lookup
  set_below f fs n v h (gs, e, size, means) =
      (f ∷ gs, rw (h, e) refl, omega (arith, size), λ m. ground (arith, means m, ==_iff n m))

  abbrev pub SetsOrRefuses : List (Frame O) → Text → Value O → Type 0
  SetsOrRefuses fs n v =
      ((is_visible n fs ≡ false) × (set n v fs ≡ refused (unknown_variable n)))
      ⊎ ((is_visible n fs ≡ true) × Assigns fs n v)

  set_step :
      (f : Frame O) (fs : List (Frame O)) (n : Text) (v : Value O) (o : Option (Variable O))
      → get f.variables n ≡ o
      → SetsOrRefuses fs n v
      → SetsOrRefuses (f ∷ fs) n v
  unfolding set is_visible
  set_step f fs n v none h (inl (hidden, unknown)) = inl (rw h hidden, rw (h, unknown) refl)
  set_step f fs n v none h (inr (seen, found)) = inr (rw h seen, set_below f fs n v h found)
  set_step f fs n v (some x) h below = inr (rw h refl, set_here f fs n v x h)

  -- A set of a visible name changes what that name means and what no other name means, in as many
  -- frames; a set of a name that is not visible is refused.
  pub lookup-set : (fs : List (Frame O)) (n : Text) (v : Value O) → SetsOrRefuses fs n v
  unfolding set is_visible
  lookup-set [] n v = inl (refl, refl)
  lookup-set (f ∷ fs) n v = set_step f fs n v (get f.variables n) refl (lookup-set fs n v)

  -- No frame declares a name twice.
  abbrev pub AllUnique : List (Frame O) → Type 0
  AllUnique [] = Unit
  AllUnique (f ∷ fs) = Unique f.variables × AllUnique fs

  get-put_all :
      (e d : Dict Text (Variable O)) (n : Text)
      → Unique e
      → get (put_all d e) n ≡ elim (get e n) [ none ↦ get d n | some x ↦ some x ]
  unfolding put_all get
  get-put_all [] d n u = refl
  get-put_all ((m, x) ∷ e) d n (fresh, u) =
      rw (get-put_all e (put d m x) n u) (ground (arith, get-put d m n x, ==_iff m n))

  -- Where no frame declares a name twice, the variables that a query is given are those that a lookup
  -- finds.
  pub get-all_visible :
      (fs : List (Frame O)) (n : Text)
      → AllUnique fs
      → value_in (get (all_visible fs) n) ≡ lookup n fs
  unfolding all_visible lookup value_in get
  get-all_visible [] n u = refl
  get-all_visible (f ∷ fs) n (u, us) =
      rw (get-put_all f.variables (all_visible fs) n u) (ground (arith, get-all_visible fs n us))
