-- ===== src/Util/Keys.antt =====
-- Go maps whose keys are distinct: the order in which they are written and read.
use update_manager.Base.{
  String, false, ◌≡◌, refl, ap, ◌∙◌, sym, subst, ◌==◌, ◌||◌, List, [], ◌∷◌, ◌++◌, insert, keys,
  string_eq, eq_iff, arith, Bool-cases, inl, inr,
}
use mathlib.Core.List.{Permᴰ}
use mathlib.Core.List.Permᴰ
use update_manager.Util.{contains}

-- No name is twice in a list.
abbrev pub IsDistinct : List String → Type 0
IsDistinct [] = Unit
IsDistinct (k ∷ ks) = (contains ks k ≡ false) × IsDistinct ks

-- The lists that a function gives for the entries of a map, in one.
abbrev pub collect {ℓ κ} : {A : Type ℓ} {B : Type κ} → (A → List B) → List A → List B
collect f [] = []
collect f (a ∷ m) = f a ++ collect f m

pub between {ℓ} : {A : Type ℓ} {l l' r r' : List A} → l ≡ l' → Permᴰ l' r' → r ≡ r' → Permᴰ l r
between {l} {r' = r'} e p f = subst (Permᴰ l) (sym f) (subst (λ x. Permᴰ x r') (sym e) p)

exchange {ℓ} : {A : Type ℓ} (k l m : List A) → Permᴰ (k ++ (l ++ m)) (l ++ (k ++ m))
exchange [] l m = Permᴰ.refl (l ++ m)
exchange (a ∷ k) l m =
    Permᴰ.trans (Permᴰ.cons refl (exchange k l m)) (Permᴰ.symm (Permᴰ.middle a l (k ++ m)))

module _ {ℓ} {V : Type ℓ} where
  contains-keys-insert :
      (d j : String) (a : V) (m : List (String × V))
      → contains (keys (insert d a m)) j ≡ (d == j || contains (keys m) j)
  unfolding insert contains
  contains-keys-insert d j a [] = ground (arith, eq_iff d j, eq_iff j d)
  contains-keys-insert d j a ((k, v) ∷ m) =
      ground (arith, eq_iff d j, eq_iff j d, eq_iff k d, eq_iff j k, contains-keys-insert d j a m)

  pub insert-IsDistinct :
      (d : String) (a : V) (m : List (String × V))
      → IsDistinct (keys m)
      → IsDistinct (keys (insert d a m))
  unfolding insert contains
  insert-IsDistinct d a [] h = (refl, tt)
  insert-IsDistinct d a ((k, v) ∷ m) (n, h) =
      ground
        (arith, eq_iff k d, eq_iff d k, contains-keys-insert d k a m, insert-IsDistinct d a m h)

  contains-Perm :
      {m n : List (String × V)}
      → Permᴰ m n
      → (d : String) → contains (keys m) d ≡ contains (keys n) d
  unfolding contains
  contains-Perm Permᴰ.nil d = refl
  contains-Perm (Permᴰ.cons e p) d = ground (arith, ap (λ q. q.0) e, contains-Perm p d)
  contains-Perm (Permᴰ.swap e f) d = ground (arith, ap (λ q. q.0) e, ap (λ q. q.0) f)
  contains-Perm (Permᴰ.trans p q) d = contains-Perm p d ∙ contains-Perm q d

  pub IsDistinct-Perm :
      {m n : List (String × V)} → Permᴰ m n → IsDistinct (keys m) → IsDistinct (keys n)
  unfolding contains
  IsDistinct-Perm Permᴰ.nil h = h
  IsDistinct-Perm (Permᴰ.cons {a = a} {l₂ = n} e p) (f, h) = (
    subst (λ k. contains (keys n) k ≡ false) (ap (λ q. q.0) e) (sym (contains-Perm p a.0) ∙ f),
    IsDistinct-Perm p h,
  )
  IsDistinct-Perm (Permᴰ.swap {a = a} {b = b} e f) (g, (h, k)) = (
    ground (arith, eq_iff a.0 b.0, eq_iff b.0 a.0, ap (λ q. q.0) e, ap (λ q. q.0) f, g, h),
    (ground (arith, ap (λ q. q.0) e, ap (λ q. q.0) f, h), k),
  )
  IsDistinct-Perm (Permᴰ.trans p q) h = IsDistinct-Perm q (IsDistinct-Perm p h)

  swapped : (a b : String × V) (l : List (String × V)) → Permᴰ (a ∷ b ∷ l) (b ∷ a ∷ l)
  swapped a b l = Permᴰ.swap refl refl

  consed : (a : String × V) {l r : List (String × V)} → Permᴰ l r → Permᴰ (a ∷ l) (a ∷ r)
  consed a p = Permᴰ.cons refl p

  pub insert-comm :
      (k j : String) (v w : V) (m : List (String × V))
      → (k == j) ≡ false
      → Permᴰ (insert k v (insert j w m)) (insert j w (insert k v m))
  unfolding insert
  insert-comm k j v w [] n =
      between (ground (arith, eq_iff k j, eq_iff j k)) (swapped (j, w) (k, v) [])
        (ground (arith, eq_iff k j, eq_iff j k))
  insert-comm k j v w ((i, u) ∷ m) n = elim (Bool-cases (i == k)) [
    | inl a ↦
        between (ground (arith, eq_iff i k, eq_iff i j, eq_iff k j))
          (Permᴰ.refl ((k, v) ∷ insert j w m)) (ground (arith, eq_iff i k, eq_iff i j, eq_iff k j))
    | inr a ↦ elim (Bool-cases (i == j)) [
      | inl b ↦
          between (ground (arith, eq_iff i k, eq_iff i j, eq_iff j k))
            (Permᴰ.refl ((j, w) ∷ insert k v m))
            (ground (arith, eq_iff i k, eq_iff i j, eq_iff j k))
      | inr b ↦ between (ground arith) (consed (i, u) (insert-comm k j v w m n)) (ground arith)
    ]
  ]

  insert-swapped :
      (k : String) (v : V) (a b : String × V) (l : List (String × V))
      → (b.0 == a.0) ≡ false
      → Permᴰ (insert k v (a ∷ b ∷ l)) (insert k v (b ∷ a ∷ l))
  unfolding insert
  insert-swapped k v (i, u) (j, w) l n = elim (Bool-cases (i == k)) [
    | inl x ↦
        between (ground arith) (swapped (k, v) (j, w) l)
          (ground (arith, eq_iff i k, eq_iff j i, eq_iff j k))
    | inr x ↦ elim (Bool-cases (j == k)) [
      | inl y ↦ between (ground arith) (swapped (i, u) (k, v) l) (ground arith)
      | inr y ↦ between (ground arith) (swapped (i, u) (j, w) (insert k v l)) (ground arith)
    ]
  ]

  pub insert-Perm :
      (k : String) (v : V) {m n : List (String × V)}
      → Permᴰ m n
      → IsDistinct (keys m)
      → Permᴰ (insert k v m) (insert k v n)
  unfolding insert contains
  insert-Perm k v Permᴰ.nil h = consed (k, v) Permᴰ.nil
  insert-Perm k v (Permᴰ.cons {a = (i, u)} {b = b} {l₁ = m} {l₂ = n} e p) (f, h) =
      subst (λ q. Permᴰ (insert k v ((i, u) ∷ m)) (insert k v (q ∷ n))) e
        (elim (Bool-cases (i == k)) [
          | inl x ↦ between (ground arith) (consed (k, v) p) (ground arith)
          | inr x ↦ between (ground arith) (consed (i, u) (insert-Perm k v p h)) (ground arith)
        ])
  insert-Perm k v (Permᴰ.swap {a = a} {b = b} {l = l} e f) (g, (h, d)) =
      subst (λ q. Permᴰ (insert k v (a ∷ b ∷ l)) (insert k v q)) (λ i. f i ∷ e i ∷ l)
        (insert-swapped k v a b l (ground (arith, eq_iff a.0 b.0, eq_iff b.0 a.0, g)))
  insert-Perm k v (Permᴰ.trans p q) h =
      Permᴰ.trans (insert-Perm k v p h) (insert-Perm k v q (IsDistinct-Perm p h))

  pub collect-Perm {κ} :
      {B : Type κ} (f : String × V → List B) {m n : List (String × V)}
      → Permᴰ m n
      → Permᴰ (collect f m) (collect f n)
  collect-Perm f Permᴰ.nil = Permᴰ.nil
  collect-Perm f (Permᴰ.cons {a = a} {l₁ = m} {l₂ = n} e p) =
      subst (λ q. Permᴰ (f a ++ collect f m) (f q ++ collect f n)) e
        (Permᴰ.append_left (f a) (collect-Perm f p))
  collect-Perm f (Permᴰ.swap {a = a} {b = b} {l = l} e e') =
      subst (λ q. Permᴰ (collect f (a ∷ b ∷ l)) (collect f q)) (λ i. e' i ∷ e i ∷ l)
        (exchange (f a) (f b) (collect f l))
  collect-Perm f (Permᴰ.trans p q) = Permᴰ.trans (collect-Perm f p) (collect-Perm f q)
