-- ===== src/Memory/Chars.antt =====
-- The string functions of kernel/src/lib/memory.c.
-- A `const char *` is the list of the bytes from it to the end of its object, and a destination
-- the list of the bytes that it may hold; the two do not overlap. `none` is an access past the end
-- of either. `char` is compared for equality alone, so a byte is a number.
pub mod Length
pub mod Copy
pub mod Compare
pub mod Find
pub mod Spans
use mathlib.Core.Option
use shadow_os.Base.{
  ℕ, zero, suc, ◌+◌, ◌%◌, Bool, true, false, ◌&&◌, ◌||◌, Option, none, some, List, [], ◌∷◌, ◌==◌,
  ◌!=◌, if◌then◌else◌, ℤ, pos, sub_ℕ,
}

abbrev pub Chars : Type 0
Chars = List ℕ

-- One byte in front of what a later part of a loop leaves.
abbrev pub keep : ℕ → Option Chars → Option Chars
keep c r = Option.map (λ rest. c ∷ rest) r

unfoldable pub strlen : Chars → Option ℕ
strlen [] = none
strlen (c ∷ s) = let rest = strlen s in if c == 0 then some 0 else Option.map suc rest

-- `while ((*d++ = *src++));`
pub strcpy : (dest src : Chars) → Option Chars
strcpy [] src = none
strcpy (d ∷ ds) [] = none
strcpy (d ∷ ds) (c ∷ cs) = let rest = strcpy ds cs in if c == 0 then some (0 ∷ ds) else keep c rest

-- `while (n--) *d++ = '\0';`
pad : ℕ → Chars → Option Chars
pad zero d = some d
pad (suc n) [] = none
pad (suc n) (x ∷ d) = keep 0 (pad n d)

-- The first loop leaves without `n--` when it has copied the terminator; then the second pads.
pub strncpy : (dest src : Chars) → ℕ → Option Chars
unfolding pad
strncpy dest src zero = some dest
strncpy [] src (suc n) = none
strncpy (d ∷ ds) [] (suc n) = none
strncpy (d ∷ ds) (c ∷ cs) (suc n) =
    let rest = strncpy ds cs n in if c == 0 then keep 0 (pad (suc n) ds) else keep c rest

pub strcat : (dest src : Chars) → Option Chars
strcat [] src = none
strcat (d ∷ ds) src =
    let rest = strcat ds src in if d == 0 then strcpy (d ∷ ds) src else keep d rest

-- `*d = '\0';`
terminate : Chars → Option Chars
terminate [] = none
terminate (d ∷ ds) = some (0 ∷ ds)

-- `while (n-- && (*d++ = *src++)); *d = '\0';`
pub append_up_to : ℕ → (dest src : Chars) → Option Chars
unfolding terminate
append_up_to zero dest src = terminate dest
append_up_to (suc n) [] src = none
append_up_to (suc n) (d ∷ ds) [] = none
append_up_to (suc n) (d ∷ ds) (c ∷ cs) =
    let rest = append_up_to n ds cs in if c == 0 then keep 0 (terminate ds) else keep c rest

pub strncat : (dest src : Chars) → ℕ → Option Chars
strncat [] src n = none
strncat (d ∷ ds) src n =
    let rest = strncat ds src n in if d == 0 then append_up_to n (d ∷ ds) src else keep d rest

unfoldable pub strcmp : Chars → Chars → Option ℤ
strcmp [] t = none
strcmp (a ∷ s) [] = none
strcmp (a ∷ s) (b ∷ t) =
    let rest = strcmp s t in if (a != 0) && (a == b) then rest else some (sub_ℕ a b)

unfoldable pub strncmp : Chars → Chars → ℕ → Option ℤ
strncmp s t zero = some (pos 0)
strncmp [] t (suc n) = none
strncmp (a ∷ s) [] (suc n) = none
strncmp (a ∷ s) (b ∷ t) (suc n) =
    let rest = strncmp s t n in if (a != 0) && (a == b) then rest else some (sub_ℕ a b)

-- A pointer into the string is its offset, in a second option that is `none` for NULL.
pub strchr : Chars → ℕ → Option (Option ℕ)
strchr [] c = none
strchr (x ∷ s) c =
    let rest = strchr s c in
    if x == 0
    then some none
    else if x == c % 256
    then some (some 0)
    else Option.map (Option.map suc) rest

-- `last` at the end of the loop, for its value and the offset at the start of a round
pub strrchr_from : Option ℕ → ℕ → Chars → ℕ → Option (Option ℕ)
strrchr_from last i [] c = none
strrchr_from last i (x ∷ s) c =
    let rest = strrchr_from (if x == c % 256 then some i else last) (i + 1) s c in
    if x == 0 then some last else rest

pub strrchr : Chars → ℕ → Option (Option ℕ)
unfolding strrchr_from
strrchr s c = strrchr_from none 0 s c

-- `for (p = set; *p; p++) if (c == *p) …`: is `c` in the set?
unfoldable pub in_set : ℕ → Chars → Option Bool
in_set c [] = none
in_set c (p ∷ set) =
    let rest = in_set c set in if p == 0 then some false else if c == p then some true else rest

unfoldable pub strcspn : Chars → Chars → Option ℕ
unfolding in_set Option.bind
strcspn [] reject = none
strcspn (c ∷ s) reject =
    let rest = strcspn s reject in
    if c == 0
    then some 0
    else Option.bind (in_set c reject) λ hit. if hit then some 0 else Option.map suc rest

unfoldable pub strspn : Chars → Chars → Option ℕ
unfolding in_set Option.bind
strspn [] accept = none
strspn (c ∷ s) accept =
    let rest = strspn s accept in
    if c == 0
    then some 0
    else Option.bind (in_set c accept) λ hit. if hit then Option.map suc rest else some 0

pub strpbrk : Chars → Chars → Option (Option ℕ)
unfolding in_set Option.bind
strpbrk [] accept = none
strpbrk (c ∷ s) accept =
    let rest = strpbrk s accept in
    if c == 0
    then some none
    else Option.bind (in_set c accept)
        λ hit. if hit then some (some 0) else Option.map (Option.map suc) rest

-- `while (*h && *n && (*h == *n))`, then `!*n`: does the needle start here?
pub starts_here : Chars → Chars → Option Bool
starts_here h [] = none
starts_here [] (n ∷ ns) = none
starts_here (h ∷ hs) (n ∷ ns) =
    let rest = starts_here hs ns in if (h != 0) && (n != 0) && (h == n) then rest else some (n == 0)

-- the loop over `haystack`
pub strstr_from : Chars → Chars → Option (Option ℕ)
unfolding starts_here Option.bind
strstr_from [] needle = none
strstr_from (h ∷ hs) needle =
    let rest = strstr_from hs needle in
    if h == 0
    then some none
    else Option.bind (starts_here (h ∷ hs) needle)
        λ hit. if hit then some (some 0) else Option.map (Option.map suc) rest

pub strstr : Chars → Chars → Option (Option ℕ)
unfolding strstr_from
strstr haystack [] = none
strstr haystack (n ∷ ns) = if n == 0 then some (some 0) else strstr_from haystack (n ∷ ns)
