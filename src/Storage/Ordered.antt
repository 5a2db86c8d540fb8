-- ===== src/Storage/Ordered.antt =====
-- Tables in the order of a query of server-package/crates/frp-game-server/src/storage.rs: sorting
-- keeps what is found under a key.
use orange_frp.Prelude.{
  ◌≡◌, refl, ap, ◌∙◌, inl, inr, Bool, false, ◌||◌, some, List, [], ◌∷◌, arith, if◌then◌else◌,
  Bool-cases, ◌==◌, nat_eq, list_eq, list_beq_iff, pair_eq, Nodup, keys, lookup, contains_key, Text,
}
use orange_frp.Config.Sort.{insert_sorted, sort}

-- Sorting a table by its rows.
module _ {V : Type 0} (le : Text × V → Text × V → Bool) where
  lookup-insert_sorted :
      (k j : Text) (v : V) (m : List (Text × V))
      → contains_key j m ≡ false
      → lookup k (insert_sorted le (j, v) m) ≡ (if j == k then some v else lookup k m)
  unfolding insert_sorted
  lookup-insert_sorted k j v [] absent = refl
  lookup-insert_sorted k j v ((i, w) ∷ m) absent = elim (Bool-cases (le (j, v) (i, w))) [
    | inl below ↦ rw below refl
    | inr above ↦ rw above (
        ground (
          arith,
          lookup-insert_sorted k j v m,
          list_beq_iff j k,
          list_beq_iff i k,
          list_beq_iff i j,
        ))
  ]

  keys-insert_sorted :
      (k j : Text) (v : V) (m : List (Text × V))
      → contains_key k (insert_sorted le (j, v) m) ≡ (j == k || contains_key k m)
  unfolding insert_sorted
  keys-insert_sorted k j v [] = refl
  keys-insert_sorted k j v ((i, w) ∷ m) = elim (Bool-cases (le (j, v) (i, w))) [
    | inl below ↦ rw below refl
    | inr above ↦ rw above (ground (arith, keys-insert_sorted k j v m))
  ]

  pub keys-sort : (k : Text) (m : List (Text × V)) → contains_key k (sort le m) ≡ contains_key k m
  unfolding sort
  keys-sort k [] = refl
  keys-sort k ((j, v) ∷ m) =
      keys-insert_sorted k j v (sort le m) ∙ ap (λ b. j == k || b) (keys-sort k m)

  pub lookup-sort :
      (k : Text) (m : List (Text × V)) → Nodup (keys m) → lookup k (sort le m) ≡ lookup k m
  unfolding sort
  lookup-sort k [] d = refl
  lookup-sort k ((j, v) ∷ m) d =
      lookup-insert_sorted k j v (sort le m) (keys-sort j m ∙ d.0)
      ∙ ap (λ o. if j == k then some v else o) (lookup-sort k m d.1)

  insert_sorted-Nodup :
      (j : Text) (v : V) (m : List (Text × V))
      → contains_key j m ≡ false
      → Nodup (keys m)
      → Nodup (keys (insert_sorted le (j, v) m))
  unfolding insert_sorted
  insert_sorted-Nodup j v [] absent d = (refl, tt)
  insert_sorted-Nodup j v ((i, w) ∷ m) absent d = elim (Bool-cases (le (j, v) (i, w))) [
    | inl below ↦ rw below (absent, d)
    | inr above ↦ rw above (
      ground (arith, keys-insert_sorted i j v m, list_beq_iff i j, list_beq_iff j i),
      insert_sorted-Nodup j v m (ground arith) d.1,
    )
  ]

  pub sort-Nodup : (m : List (Text × V)) → Nodup (keys m) → Nodup (keys (sort le m))
  unfolding sort
  sort-Nodup [] d = tt
  sort-Nodup ((j, v) ∷ m) d =
      insert_sorted-Nodup j v (sort le m) (keys-sort j m ∙ d.0) (sort-Nodup m d.1)
