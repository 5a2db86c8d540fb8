-- ===== src/Admin/Choice.antt =====
-- The choice of a user in server-package/crates/frp-game-server/src/app.rs.
use orange_frp.Prelude.{
  ℕ, zero, suc, ◌+◌, ◌-◌, ◌<◌, ◌≡◌, refl, sym, ap, ◌∙◌, subst, ◌⊎◌, inl, inr, Bool, true, false,
  ◌&&◌, none, some, List, [], ◌∷◌, ◌++◌, arith, leb, Bool-cases, Option-cases, ◌==◌, nat_eq,
  list_eq, list_beq_iff, pair_eq, length, get_elem?, any, All, Result, ok, >>=-eq-ok, Text,
  is_empty, trim,
}
use orange_frp.Config.{ServerConfig, ServerUser, Error, u64_max}
use orange_frp.Admin.{prompt_non_empty, parse_unsigned, position, choose_user, select_user_index}

module _ {ℓ} {A : Type ℓ} (p : A → Bool) where
  position-found :
      (xs : List A) (i : ℕ)
      → position p xs ≡ some i
      → (x : A) × (get_elem? xs i ≡ some x) × (p x ≡ true)
  position-found [] i h = absurd (cc h)
  position-found (x ∷ xs) i h = elim (Bool-cases (p x)) [
    | inl here ↦
        let e : some 0 ≡ some i = rw here at h in
        let e' : 0 ≡ i = cc e in
        subst (λ (n : ℕ). (y : A) × (get_elem? (x ∷ xs) n ≡ some y) × (p y ≡ true)) e'
          (x, refl, here)
    | inr later ↦ elim (Option-cases (position p xs)) [
      | inl nowhere ↦ absurd (cc (rw nowhere at (rw later at h)))
      | inr (n, e) ↦
          let e1 : some (n + 1) ≡ some i = rw e at (rw later at h) in
          let e2 : suc n ≡ i = omega (arith, some_inj e1) in
          let (y, at, good) = position-found xs n e in
          subst (λ (m : ℕ). (z : A) × (get_elem? (x ∷ xs) m ≡ some z) × (p z ≡ true)) e2
            (y, at, good)
    ]
  ]
    where
      some_inj : {n m : ℕ} → some n ≡ some m → n ≡ m
      some_inj h = cc h

  position-none : (xs : List A) → position p xs ≡ none → any p xs ≡ false
  position-none [] h = refl
  position-none (x ∷ xs) h = elim (Bool-cases (p x)) [
    | inl here ↦ absurd (cc (rw here at h))
    | inr later ↦ elim (Option-cases (position p xs)) [
      | inl nowhere ↦ rw later (position-none xs nowhere)
      | inr (n, e) ↦ absurd (cc (rw e at (rw later at h)))
    ]
  ]

get_elem?_total :
    {A : Type 0} (xs : List A) (i : ℕ) → i < length xs → (x : A) × (get_elem? xs i ≡ some x)
get_elem?_total [] i h = absurd (omega arith)
get_elem?_total (x ∷ xs) zero h = (x, refl)
get_elem?_total (x ∷ xs) (suc i) h = get_elem?_total xs i (omega arith)

abbrev ok_answer : Text → List Text → Result Error (Text × List Text)
ok_answer t ls = ok (t, ls)

-- The answer is the first line that is not blank, trimmed.
pub record IsAnswer (lines : List Text) (choice : Text) (rest : List Text) : Type 0 where
  pub blank : List Text
  pub line : Text
  pub parts : lines ≡ blank ++ line ∷ rest
  pub blank_lines : All (λ l. is_empty (trim l) ≡ true) blank
  pub trimmed : choice ≡ trim line
  pub given : is_empty choice ≡ false

prompt_non_empty-IsAnswer :
    (lines : List Text) (choice : Text) (rest : List Text)
    → prompt_non_empty lines ≡ ok (choice, rest)
    → IsAnswer lines choice rest
unfolding prompt_non_empty
prompt_non_empty-IsAnswer [] choice rest h = absurd (cc h)
prompt_non_empty-IsAnswer (line ∷ lines) choice rest h = elim (Bool-cases (is_empty (trim line))) [
  | inl empty ↦
      let v = prompt_non_empty-IsAnswer lines choice rest (rw empty at h) in
      record {
        blank = line ∷ v.blank;
        line = v.line;
        parts = ap (◌∷◌ line) v.parts;
        blank_lines = (empty, v.blank_lines);
        trimmed = v.trimmed;
        given = v.given;
      }
  | inr full ↦
      let e : ok_answer (trim line) lines ≡ ok_answer choice rest = rw full at h in
      let same : trim line ≡ choice = cc e in
      let left : lines ≡ rest = cc e in
      record {
        blank = [];
        line = line;
        parts = ap (◌∷◌ line) left;
        blank_lines = tt;
        trimmed = sym same;
        given = subst (λ t. is_empty t ≡ false) same full;
      }
]

-- The user at the index has the account that was typed, or no user has it and the index is that of
-- the number that was typed.
pub record Chosen (config : ServerConfig) (choice : Text) (index : ℕ) : Type 0 where
  pub user : ServerUser
  pub there : get_elem? config.users index ≡ some user
  pub named :
      (user.account ≡ choice)
      ⊎ ((any (λ u. u.account == choice) config.users ≡ false)
          × (parse_unsigned u64_max choice ≡ some (index + 1)))

choose_user-Chosen :
    (config : ServerConfig) (choice : Text) (index : ℕ)
    → choose_user config choice ≡ some index
    → Chosen config choice index
unfolding choose_user
choose_user-Chosen config choice index h =
    let named = λ (u : ServerUser). u.account == choice in
    elim (Option-cases (position named config.users)) [
      | inr (i, e) ↦
          let (user, at, same) = position-found named config.users i e in
          let e1 : some i ≡ some index = rw (e, choose_user) at h in
          let e2 : i ≡ index = cc e1 in
          record {
            user = user;
            there = subst (λ n. get_elem? config.users n ≡ some user) e2 at;
            named = inl ((list_beq_iff user.account choice).0 same);
          }
      | inl nobody ↦ elim (Option-cases (parse_unsigned u64_max choice)) [
        | inl e ↦ absurd (cc (rw e at (rw (nobody, choose_user) at h)))
        | inr (n, e) ↦ elim (Bool-cases (leb 1 n && leb n (length config.users))) [
          | inr outside ↦ absurd (cc (rw outside at (rw e at (rw (nobody, choose_user) at h))))
          | inl inside ↦
              let e1 : some (n - 1) ≡ some index =
                rw inside at (rw e at (rw (nobody, choose_user) at h)) in
              let e2 : n - 1 ≡ index = cc e1 in
              let back : n ≡ index + 1 = ground (arith, e2) in
              let (user, at) = get_elem?_total config.users index (ground (arith, e2)) in
              record {
                user = user;
                there = at;
                named = inr (position-none named config.users nobody, e ∙ ap some back);
              }
        ]
      ]
    ]

-- A user that is selected is the one that the first line that is not blank chooses: the user of
-- the account that it names, or, if no user has that account, the user whose number it is, counted
-- from one.
pub select_user_index-Chosen :
    (config : ServerConfig) (lines rest : List Text) (index : ℕ)
    → select_user_index config lines ≡ ok (some index, rest)
    → (choice : Text) × IsAnswer lines choice rest × Chosen config choice index
unfolding select_user_index
select_user_index-Chosen config lines rest index h = elim (Bool-cases (is_empty config.users)) [
  | inl nobody ↦ absurd (cc (rw nobody at h))
  | inr some_users ↦
      let ((choice, left), typed, last) =
        >>=-eq-ok (prompt_non_empty lines) _ (rw some_users at h) in
      let e : choose_user config choice ≡ some index = cc last in
      let same : left ≡ rest = cc last in
      (
        choice,
        subst (IsAnswer lines choice) same (prompt_non_empty-IsAnswer lines choice left typed),
        choose_user-Chosen config choice index e,
      )
]
