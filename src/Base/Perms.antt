-- ===== src/Base/Perms.antt =====
-- Permutations of what is put together from parts.
use mathlib.Core.List.{append_assoc, perm_append_comm, Perm, Permᴰ}
use mathlib.Core.List.Perm
use mathlib.Core.HLevel.{×_prop}
use mathlib.Core.Path.{◌≡◌, sym, ap, ◌∙◌, subst}
use mathlib.Core.Logic.{∥∥₁_elim, ∥∥₁_prop}
use rtls_stream_visualizer.Base.Lists.{All}
use mathlib.Core.List.{List, [], ◌∷◌, ◌++◌}

module _ {ℓ} {A : Type ℓ} where
  -- What stands last is moved before what stands in the middle.
  pub Perm-last : (xs ys zs : List A) → Perm ((xs ++ ys) ++ zs) ((xs ++ zs) ++ ys)
  Perm-last xs ys zs =
      subst (λ l. Perm l ((xs ++ zs) ++ ys)) (sym (append_assoc xs ys zs))
        (subst (Perm (xs ++ (ys ++ zs))) (sym (append_assoc xs zs ys))
          (Perm.append_left xs (perm_append_comm ys zs)))

  -- One element in the middle is replaced by some at three places.
  pub Perm-spread :
      (first middle last rest whole : List A)
      → Perm whole (middle ++ rest)
      → Perm ((first ++ (middle ++ last)) ++ rest) (first ++ (whole ++ last))
  Perm-spread first middle last rest whole h =
      subst (λ l. Perm l (first ++ (whole ++ last)))
        (sym (append_assoc first (middle ++ last) rest))
        (Perm.append_left first
          (Perm.trans (Perm-last middle last rest) (Perm.append_right last (Perm.symm h))))

  pub Perm-exchange : (xs ys zs : List A) → Perm (xs ++ (ys ++ zs)) (ys ++ (xs ++ zs))
  Perm-exchange xs ys zs =
      subst (λ l. Perm l (ys ++ (xs ++ zs))) (append_assoc xs ys zs)
        (subst (Perm ((xs ++ ys) ++ zs)) (append_assoc ys xs zs)
          (Perm.append_right zs (perm_append_comm xs ys)))

  -- Two permutations side by side.
  pub Perm-zip :
      (xs ys zs us ps qs : List A)
      → Perm (xs ++ ys) ps
      → Perm (zs ++ us) qs
      → Perm ((xs ++ zs) ++ (ys ++ us)) (ps ++ qs)
  Perm-zip xs ys zs us ps qs h k =
      Perm.trans
        (subst (λ l. Perm l ((xs ++ ys) ++ (zs ++ us))) (sym (append_assoc xs zs (ys ++ us)))
          (subst (Perm (xs ++ (zs ++ (ys ++ us)))) (sym (append_assoc xs ys (zs ++ us)))
            (Perm.append_left xs (Perm-exchange zs ys us))))
        (Perm.trans (Perm.append_right (zs ++ us) h) (Perm.append_left ps k))

-- What is computed element by element of permuted lists is permuted.
module _ {ℓ κ} {A : Type ℓ} {B : Type κ} (f : List A → List B)
    (split : (xs ys : List A) → f (xs ++ ys) ≡ f xs ++ f ys) where
  Permᴰ-parts : {xs ys : List A} → Permᴰ xs ys → Perm (f xs) (f ys)
  Permᴰ-parts Permᴰ.nil = Perm.refl _
  Permᴰ-parts (Permᴰ.cons {a = a} {l₁ = xs} {l₂ = ys} x p) =
      subst (λ a'. Perm (f (a ∷ xs)) (f (a' ∷ ys))) x
        (subst (λ l. Perm l (f (a ∷ ys))) (sym (split (a ∷ []) xs))
          (subst (Perm (f (a ∷ []) ++ f xs)) (sym (split (a ∷ []) ys))
            (Perm.append_left (f (a ∷ [])) (Permᴰ-parts p))))
  Permᴰ-parts (Permᴰ.swap {a = a} {b = b} {b' = b'} {l = l} x y) =
      subst (λ u. Perm (f (a ∷ b ∷ l)) (f (u ∷ b' ∷ l))) y
        (subst (λ v. Perm (f (a ∷ b ∷ l)) (f (b ∷ v ∷ l))) x
          (subst (λ m. Perm m (f (b ∷ a ∷ l))) (sym (two a b l))
            (subst (Perm (f (a ∷ []) ++ (f (b ∷ []) ++ f l))) (sym (two b a l))
              (Perm-exchange (f (a ∷ [])) (f (b ∷ [])) (f l)))))
    where
      two : (a b : A) (l : List A) → f (a ∷ b ∷ l) ≡ f (a ∷ []) ++ (f (b ∷ []) ++ f l)
      two a b l = split (a ∷ []) (b ∷ l) ∙ ap (λ m. f (a ∷ []) ++ m) (split (b ∷ []) l)
  Permᴰ-parts (Permᴰ.trans p q) = Perm.trans (Permᴰ-parts p) (Permᴰ-parts q)

  pub Perm-parts : {xs ys : List A} → Perm xs ys → Perm (f xs) (f ys)
  Perm-parts {xs} {ys} h = ∥∥₁_elim h ∥∥₁_prop (λ d. Permᴰ-parts d)

pub All-Permᴰ {ℓ κ} :
    {A : Type ℓ} (P : A → Type κ) (xs ys : List A) → Permᴰ xs ys → All P xs → All P ys
All-Permᴰ P _ _ Permᴰ.nil h = h
All-Permᴰ P _ _ (Permᴰ.cons x p) (q, h) = (subst P x q, All-Permᴰ P _ _ p h)
All-Permᴰ P _ _ (Permᴰ.swap x y) (q, (r, h)) = (subst P y r, (subst P x q, h))
All-Permᴰ P _ _ (Permᴰ.trans p q) h = All-Permᴰ P _ _ q (All-Permᴰ P _ _ p h)

All-IsProp {ℓ κ} :
    {A : Type ℓ} (P : A → Type κ) (p : (x : A) → IsProp (P x)) (xs : List A) → IsProp (All P xs)
All-IsProp P p [] = hlevel
All-IsProp P p (x ∷ xs) = ×_prop (p x) (All-IsProp P p xs)

pub All-Perm {ℓ κ} :
    {A : Type ℓ} (P : A → Type κ)
    → ((x : A) → IsProp (P x))
    → {xs ys : List A} → Perm xs ys
    → All P xs
    → All P ys
All-Perm P p {xs} {ys} h all = ∥∥₁_elim h (All-IsProp P p ys) (λ d. All-Permᴰ P xs ys d all)
