-- ===== src/Sched/Files/Padded.antt =====
-- Tables of descriptors that hold a list of open files, and the loop that closes one.
use shadow_os.Base.{
  ℕ, zero, suc, ◌+◌, ◌-◌, ◌≤◌, ◌<◌, ◌≡◌, refl, ap, ◌∙◌, Option, none, some, List, [], ◌∷◌, ◌++◌,
  get_elem?, set, length, arith, get_or, get_elem?-eq-get_or, length-set,
}
use shadow_os.Base.Outcome.{ok}
use shadow_os.Sched.Files.{read_fd, write_fd, shift_down}

-- a table of `k` entries whose first ones are the nodes of the list
unfoldable pub padded : ℕ → List ℕ → List (Option ℕ)
padded zero fds = []
padded (suc k) [] = none ∷ padded k []
padded (suc k) (x ∷ fds) = some x ∷ padded k fds

abbrev pub remove_nth : ℕ → List ℕ → List ℕ
remove_nth i [] = []
remove_nth zero (x ∷ xs) = xs
remove_nth (suc i) (x ∷ xs) = x ∷ remove_nth i xs

pub length-padded : (k : ℕ) (fds : List ℕ) → length (padded k fds) ≡ k
unfolding padded
length-padded zero fds = refl
length-padded (suc k) [] = ap suc (length-padded k [])
length-padded (suc k) (x ∷ fds) = ap suc (length-padded k fds)

pub set-padded :
    (k : ℕ) (fds : List ℕ) (n : ℕ)
    → length fds < k
    → set (padded k fds) (length fds) (some n) ≡ padded k (fds ++ n ∷ [])
unfolding padded
set-padded zero fds n h = absurd (omega arith)
set-padded (suc k) [] n h = refl
set-padded (suc k) (x ∷ fds) n h = ap (λ t. some x ∷ t) (set-padded k fds n (omega arith))

pub get_elem?-padded :
    (k : ℕ) (fds : List ℕ) (i : ℕ) → i < k → get_elem? (padded k fds) i ≡ some (get_elem? fds i)
unfolding padded
get_elem?-padded zero fds i h = absurd (omega arith)
get_elem?-padded (suc k) [] zero h = refl
get_elem?-padded (suc k) [] (suc i) h = get_elem?-padded k [] i (omega arith)
get_elem?-padded (suc k) (x ∷ fds) zero h = refl
get_elem?-padded (suc k) (x ∷ fds) (suc i) h = get_elem?-padded k fds i (omega arith)

-- what the loop of `close_fd` makes of a table, in range
unfoldable pub shifted : ℕ → ℕ → List (Option ℕ) → List (Option ℕ)
shifted zero i t = t
shifted (suc n) i t = shifted n (i + 1) (set t i (get_or t (i + 1) none))

pub shift_down-shifted :
    (n i : ℕ) (t : List (Option ℕ)) → i + n < length t → shift_down n i t ≡ ok (shifted n i t)
unfolding shift_down shifted read_fd write_fd
shift_down-shifted zero i t h = refl
shift_down-shifted (suc n) i t h =
    let v = get_or t (i + 1) none in
    ground (
      arith,
      get_elem?-eq-get_or t (i + 1) none (omega arith),
      length-set t i v,
      shift_down-shifted n (i + 1) (set t i v) (omega (arith, length-set t i v)),
    )

pub length-shifted : (n i : ℕ) (t : List (Option ℕ)) → length (shifted n i t) ≡ length t
unfolding shifted
length-shifted zero i t = refl
length-shifted (suc n) i t =
    length-shifted n (i + 1) (set t i (get_or t (i + 1) none))
    ∙ length-set t i (get_or t (i + 1) none)

pub shifted-cons :
    (n i : ℕ) (x : Option ℕ) (t : List (Option ℕ)) → shifted n (suc i) (x ∷ t) ≡ x ∷ shifted n i t
unfolding shifted
shifted-cons zero i x t = refl
shifted-cons (suc n) i x t =
    let step : suc i + 1 ≡ suc (i + 1) = omega arith in
    rw step (shifted-cons n (i + 1) x (set t i (get_or t (i + 1) none)))

-- Closing the first file.
pub close_first :
    (k x : ℕ) (fds : List ℕ)
    → length fds ≤ k
    → set (shifted (length fds) 0 (some x ∷ padded k fds)) (length fds) none ≡ padded (suc k) fds
unfolding shifted padded
close_first k x [] h = refl
close_first zero x (y ∷ fds) h = absurd (omega arith)
close_first (suc k) x (y ∷ fds) h =
    rw (shifted-cons (length fds) 0 (some y) (some y ∷ padded k fds))
      (ap (λ t. some y ∷ t) (close_first k y fds (omega arith)))

pub close_nth :
    (k fd : ℕ) (fds : List ℕ)
    → fd < length fds
    → length fds ≤ k
    → set (shifted (length fds - 1 - fd) fd (padded k fds)) (length fds - 1) none
      ≡ padded k (remove_nth fd fds)
unfolding padded
close_nth k fd [] lt le = absurd (omega arith)
close_nth zero fd (x ∷ fds) lt le = absurd (omega arith)
close_nth (suc k) zero (x ∷ fds) lt le =
    let e : suc (length fds) - 1 ≡ length fds = omega arith in
    let e' : length fds - 0 ≡ length fds = omega arith in
    rw (e, e') (close_first k x fds (omega arith))
close_nth (suc k) (suc fd) (x ∷ fds) lt le =
    let n = length fds - 1 - fd in
    let e : suc (length fds) - 1 - suc fd ≡ n = omega arith in
    let e' : suc (length fds) - 1 ≡ suc (length fds - 1) = omega arith in
    rw (e, e', shifted-cons n fd (some x) (padded k fds))
      (ap (λ t. some x ∷ t) (close_nth k fd fds (omega arith) (omega arith)))

pub length-remove_nth :
    (i : ℕ) (xs : List ℕ) → i < length xs → length (remove_nth i xs) ≡ length xs - 1
length-remove_nth i [] h = absurd (omega arith)
length-remove_nth zero (x ∷ xs) h = omega arith
length-remove_nth (suc i) (x ∷ xs) h = omega (arith, length-remove_nth i xs (omega arith))

pub get_elem?-none : (xs : List ℕ) (i : ℕ) → length xs ≤ i → get_elem? xs i ≡ none
get_elem?-none [] i h = refl
get_elem?-none (x ∷ xs) zero h = absurd (omega arith)
get_elem?-none (x ∷ xs) (suc i) h = get_elem?-none xs i (omega arith)
