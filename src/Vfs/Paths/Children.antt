-- ===== src/Vfs/Paths/Children.antt =====
-- vfs_lookup finds the first child of a name.
use shadow_os.Base.{
  ℕ, zero, suc, ◌<◌, ◌≡◌, ◌≢◌, refl, Bool, true, false, Option, none, some, List, [], ◌∷◌, ◌++◌,
  ◌==◌, ◌&&◌, if◌then◌else◌, ℤ, pos, sub_ℕ, length, arith, Bool-cases, inl, inr,
}
use shadow_os.Base.Outcome.{ok}
use shadow_os.Memory.Chars.{Chars, strcmp}
use shadow_os.Memory.Chars.Length.{IsText, cstr}
use shadow_os.Vfs.{Vnode, Fs}
use shadow_os.Vfs.Paths.{is_zero, find_child, lookup}

-- a child: its address, its name, and what stands behind the name
pub record Child : Type 0 where
  pub at : ℕ
  pub text : Chars
  pub behind : Chars

-- The list of nodes that starts at `c` is that of the children.
unfoldable pub Chain : Fs → ℕ → List Child → Type 0
Chain s c [] = c ≡ 0
Chain s c (x ∷ xs) =
    (c ≡ x.at)
    × (x.at ≢ 0)
    × IsText x.text
    × ((v : Vnode) × (s.nodes x.at ≡ some v) × (v.name ≡ cstr x.text x.behind) × Chain s v.next xs)

abbrev same_text : Chars → Chars → Bool
same_text [] [] = true
same_text [] (b ∷ u) = false
same_text (a ∷ t) [] = false
same_text (a ∷ t) (b ∷ u) = (a == b) && same_text t u

abbrev pub first_named : Chars → List Child → Option ℕ
first_named t [] = none
first_named t (x ∷ xs) = if same_text x.text t then some x.at else first_named t xs

strcmp-same_text :
    (t u q r : Chars)
    → IsText t
    → IsText u
    → (n : ℤ) × (strcmp (cstr t q) (cstr u r) ≡ some n) × (is_zero n ≡ same_text t u)
unfolding strcmp
strcmp-same_text [] [] q r ht hu = (pos 0, refl, refl)
strcmp-same_text [] (b ∷ u) q r ht hu = (sub_ℕ 0 b, ground arith, ground (arith, hu.0))
strcmp-same_text (a ∷ t) [] q r ht hu = (sub_ℕ a 0, ground arith, ground (arith, ht.0))
strcmp-same_text (a ∷ t) (b ∷ u) q r ht hu =
    let (n, e, z) = strcmp-same_text t u q r ht.1 hu.1 in
    elim (Bool-cases (a == b)) [
      | inl eq ↦ (n, ground (arith, e, ht.0), ground (arith, z))
      | inr ne ↦ (sub_ℕ a b, ground arith, ground arith)
    ]

find_child-first_named :
    (fuel : ℕ) (s : Fs) (c : ℕ) (xs : List Child) (t r : Chars)
    → IsText t
    → Chain s c xs
    → length xs < fuel
    → find_child fuel s c (cstr t r) ≡ ok (first_named t xs)
unfolding find_child Chain
find_child-first_named zero s c xs t r ht h lt = absurd (omega arith)
find_child-first_named (suc k) s c [] t r ht h lt = ground (arith, h)
find_child-first_named (suc k) s c (x ∷ xs) t r ht (e, ne, hx, (v, found, named, rest)) lt =
    let (n, compared, zero_iff) = strcmp-same_text x.text t x.behind r hx ht in
    let later = find_child-first_named k s v.next xs t r ht rest (omega arith) in
    ground (arith, e, ne, found, named, compared, zero_iff, later)

-- With more fuel than there are children, a lookup returns, and gives the first child of that name,
-- or NULL where there is none.
pub lookup-first_named :
    (fuel parent : ℕ) (s : Fs) (v : Vnode) (xs : List Child) (t r : Chars)
    → s.nodes parent ≡ some v
    → Chain s v.child xs
    → IsText t
    → length xs < fuel
    → lookup fuel parent (cstr t r) s ≡ ok (first_named t xs)
unfolding lookup
lookup-first_named fuel parent s v xs t r there h ht lt =
    rw there (find_child-first_named fuel s v.child xs t r ht h lt)

same_text_refl : (t : Chars) → same_text t t ≡ true
same_text_refl [] = refl
same_text_refl (c ∷ t) = ground (arith, same_text_refl t)

-- A new last child is found where no other child has its name.
pub first_named-new :
    (t : Chars) (xs : List Child) (x : Child)
    → first_named t xs ≡ none
    → x.text ≡ t
    → first_named t (xs ++ x ∷ []) ≡ some x.at
first_named-new t [] x free named = rw (named, same_text_refl t) refl
first_named-new t (y ∷ xs) x free named = ground (arith, free, first_named-new t xs x)
