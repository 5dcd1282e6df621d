-- ===== src/Ramfs/Archive/Components.antt =====
-- The loop over the components of a name ends: each round moves on in the name.
use shadow_os.Base.{
  ℕ, zero, suc, ◌+◌, ◌≤◌, ◌<◌, ◌≡◌, refl, ◌∙◌, not, ap, Bool, false, Option, none, some, length,
  arith, if◌then◌else◌, drop,
}
use shadow_os.Base.Outcome.{Outcome, ok, fault, halted, stuck, ◌>>=◌, deref}
use shadow_os.Base.Returning.{Returning, Returning-next, Returning-bind, Returning-intro}
use shadow_os.Memory.Chars.{Chars}
use shadow_os.Memory.Tokens.{strtok, last_from}
use shadow_os.Memory.Tokens.Progress.{IsStep, found, ended, last_from-IsStep}
use shadow_os.Vfs.{NodeType, Ops, modify, create_vnode}
use shadow_os.Vfs.Paths.{lookup}
use shadow_os.Ramfs.Archive.{
  Loader, octal, mode_at, mtime_at, slash, with_token, next_token, make_directory, mark, descend,
}

pub bind_cong {ℓ κ} :
    {A : Type ℓ} {B : Type κ} (m : Outcome A) (f g : A → Outcome B)
    → ((a : A) → f a ≡ g a)
    → (m >>= f) ≡ (m >>= g)
bind_cong (ok a) f g h = h a
bind_cong fault f g h = refl
bind_cong halted f g h = refl
bind_cong stuck f g h = refl

pub if_cong {ℓ} :
    {A : Type ℓ} (b : Bool) (x y y' : A) → y ≡ y' → (if b then x else y) ≡ (if b then x else y')
if_cong b x y y' e = ap (λ z. if b then x else z) e

option_cong :
    {A B : Type 0} (o : Option A) (x y : B) (f g : A → B)
    → x ≡ y
    → ((a : A) → f a ≡ g a)
    → (elim o [ none ↦ x | some a ↦ f a ]) ≡ (elim o [ none ↦ y | some a ↦ g a ])
option_cong none x y f g e h = e
option_cong (some a) x y f g e h = h a

Returning-option :
    {A B : Type 0} (P : B → Type 0) (o : Option A) (x : Outcome B) (f : A → Outcome B)
    → Returning P x
    → ((a : A) → Returning P (f a))
    → Returning P (elim o [ none ↦ x | some a ↦ f a ])
Returning-option P none x f h k = h
Returning-option P (some a) x f h k = k a

-- What comes after a step of which something is known.
bind_Returning :
    {A B : Type 0} (P : A → Type 0) (m : Outcome A) (f g : A → Outcome B)
    → Returning P m
    → ((a : A) → P a → f a ≡ g a)
    → (m >>= f) ≡ (m >>= g)
bind_Returning P (ok a) f g r h = h a r
bind_Returning P fault f g r h = refl
bind_Returning P halted f g r h = refl
bind_Returning P stuck f g r h = refl

-- How much fuel the loop over the components needs: one round for each byte that is left, and two
-- more.
pub data Suffices (k : ℕ) (token : Option ℕ) (s : Loader) : Type 0 where
  at_end : token ≡ none → 0 < k → Suffices k token s
  inside :
      (q : ℕ)
      → s.last ≡ some q
      → q ≤ length s.archive
      → length s.archive + 1 < q + k
      → Suffices k token s

-- what a call of strtok leaves, behind the place `q`
data Next (q size : ℕ) (r : Loader × Option ℕ) : Type 0 where
  later : (p : ℕ) → r.0.last ≡ some p → q < p → p ≤ size → length r.0.archive ≡ size → Next q size r
  no_more : r.1 ≡ none → Next q size r

Next-Suffices :
    (k q size : ℕ) (r : Loader × Option ℕ)
    → Next q size r
    → q ≤ size
    → size + 1 < q + suc k
    → Suffices k r.1 r.0
Next-Suffices k q size r (later p e lt le same) h more =
    inside p e (omega (arith, same)) (omega (arith, same))
Next-Suffices k q size r (no_more e) h more = at_end e (omega arith)

module _ (ops_at : ℕ → Ops) (now ramfs_at : ℕ) (new_data : Loader → Option ℕ)
    (kmalloc : ℕ → Option Chars) (fuel : ℕ) where
  next_token-Next :
      (q : ℕ) (s : Loader)
      → s.last ≡ some q
      → Returning
          (Next q (length s.archive))
          (next_token ops_at now ramfs_at new_data kmalloc fuel s)
  unfolding next_token strtok
  next_token-Next q s e = rw e (
      Returning-bind (IsStep q (some q) s.archive) (Next q (length s.archive))
        (last_from (some q) s.archive slash q) _ (last_from-IsStep (some q) s.archive slash q)
        λ t step. elim step.moves [
          | found p kept lt le ↦ later p kept lt le step.same_length
          | ended none_left kept ↦ no_more none_left
        ])

  mark-same :
      (header n : ℕ) (s : Loader)
      → Returning
          (λ t. (t.archive ≡ s.archive) × (t.last ≡ s.last))
          (mark ops_at now ramfs_at new_data kmalloc fuel header n s)
  unfolding mark
  mark-same header n s = Returning-next Kept (octal (drop (header + mode_at) s.archive)) _ λ mode.
      Returning-next Kept (octal (drop (header + mtime_at) s.archive)) _ λ time.
        Returning-next Kept
          (modify n (λ v. record v { ops = ramfs_at; mode = mode; creation_time = time }) s.fs) _
          λ t. (refl, refl)
    where
      Kept : Loader → Type 0
      Kept t = (t.archive ≡ s.archive) × (t.last ≡ s.last)

  make_directory-same :
      (header parent token : ℕ) (s : Loader)
      → Returning
          (λ r. (r.0.archive ≡ s.archive) × (r.0.last ≡ s.last))
          (make_directory ops_at now ramfs_at new_data kmalloc fuel header parent token s)
  unfolding make_directory
  make_directory-same header parent token s =
      Returning-next Same (create_vnode ops_at now parent (drop token s.archive) NodeType.dir s.fs)
        _
        λ r.
          Returning-option Same r.1 (ok (record s { fs = r.0 }, false)) _ (refl, refl)
            λ n.
              Returning-bind Kept Same
                (mark ops_at now ramfs_at new_data kmalloc fuel header n (record s { fs = r.0 })) _
                (mark-same header n (record s { fs = r.0 })) λ u kept. kept
    where
      Kept : Loader → Type 0
      Kept t = (t.archive ≡ s.archive) × (t.last ≡ s.last)

      Same : Loader × Bool → Type 0
      Same r = (r.0.archive ≡ s.archive) × (r.0.last ≡ s.last)

  -- The next component, where the fuel is enough for what follows it.
  onward :
      (k k' q : ℕ) (dir : Bool) (header : ℕ) (parent : Option ℕ) (s : Loader)
      → ((token : Option ℕ) (t : Loader)
          → Suffices k token t
          → Suffices k' token t
          → descend ops_at now ramfs_at new_data kmalloc fuel k dir header parent token t
            ≡ descend ops_at now ramfs_at new_data kmalloc fuel k' dir header parent token t)
      → s.last ≡ some q
      → q ≤ length s.archive
      → length s.archive + 1 < q + suc k
      → length s.archive + 1 < q + suc k'
      → (next_token ops_at now ramfs_at new_data kmalloc fuel s >>= λ (t, token).
          descend ops_at now ramfs_at new_data kmalloc fuel k dir header parent token t)
        ≡ (next_token ops_at now ramfs_at new_data kmalloc fuel s >>= λ (t, token).
            descend ops_at now ramfs_at new_data kmalloc fuel k' dir header parent token t)
  onward k k' q dir header parent s rest e le more more' =
      bind_Returning (Next q (length s.archive))
        (next_token ops_at now ramfs_at new_data kmalloc fuel s) _ _ (next_token-Next q s e)
        λ r n.
          rest r.1 r.0 (Next-Suffices k q (length s.archive) r n le more)
            (Next-Suffices k' q (length s.archive) r n le more')

  pub descend-rounds :
      (k k' : ℕ) (dir : Bool) (header : ℕ) (parent token : Option ℕ) (s : Loader)
      → Suffices k token s
      → Suffices k' token s
      → descend ops_at now ramfs_at new_data kmalloc fuel k dir header parent token s
        ≡ descend ops_at now ramfs_at new_data kmalloc fuel k' dir header parent token s
  unfolding descend
  descend-rounds zero k' dir header parent token s (at_end e lt) h' = absurd (omega arith)
  descend-rounds zero k' dir header parent token s (inside q e le lt) h' = absurd (omega arith)
  descend-rounds (suc k) zero dir header parent token s h (at_end e lt) = absurd (omega arith)
  descend-rounds (suc k) zero dir header parent token s h (inside q e le lt) = absurd (omega arith)
  descend-rounds (suc k) (suc k') dir header parent none s h h' = refl
  descend-rounds (suc k) (suc k') dir header parent (some p) s (at_end e lt) h' = absurd (cc)
  descend-rounds (suc k) (suc k') dir header parent (some p) s (inside q e le more) (at_end e' lt) =
      absurd (cc)
  descend-rounds (suc k) (suc k') dir header parent (some p) s (inside q e le more)
        (inside q' e' le' more') =
      let same : q' ≡ q = cc in
      bind_cong (deref parent) _ _ λ c.
        bind_cong (lookup fuel c (drop p s.archive) s.fs) _ _ λ found.
          option_cong found _ _ _ _
            (if_cong (not dir) (ok (s, some (parent, some p))) _ _ (
              bind_Returning (λ r. (r.0.archive ≡ s.archive) × (r.0.last ≡ s.last))
                (make_directory ops_at now ramfs_at new_data kmalloc fuel header c p s) _ _
                (make_directory-same header c p s)
                λ r kept. if_cong (not r.1) (ok (r.0, none)) _ _ (
                  let long = ap length kept.0 in
                  onward k k' q dir header none r.0 (descend-rounds k k' dir header none)
                    (kept.1 ∙ e) (omega (arith, long)) (omega (arith, long))
                    (omega (arith, long, same)))))
            (λ n.
              onward k k' q dir header (some n) s (descend-rounds k k' dir header (some n)) e le
                more (omega (arith, same)))

  -- The fuel of load_entry is enough for the tokens of a name.
  pub strtok-Suffices :
      (k name : ℕ) (s : Loader)
      → length s.archive ≤ k
      → Returning
          (λ t. Suffices (suc k) t.token (with_token t s))
          (strtok (some name) slash s.last s.archive)
  unfolding strtok
  strtok-Suffices k name s h =
      Returning-intro (λ t. Suffices (suc k) t.token (with_token t s))
        (last_from s.last s.archive slash name)
        λ t e.
          let step = rw e at (last_from-IsStep s.last s.archive slash name) in
          elim step.moves [
            | found q kept lt le ↦
                inside q kept (omega (arith, le, step.same_length))
                  (omega (arith, lt, h, step.same_length))
            | ended none_left kept ↦ at_end none_left (omega arith)
          ]
