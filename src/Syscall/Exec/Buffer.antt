-- ===== src/Syscall/Exec/Buffer.antt =====
-- The path buffer of `execvel` (src/syscall.rs): what a candidate's path makes the kernel read.
use avfork.Base.{
  ℕ, zero, suc, ◌+◌, ◌-◌, ◌≤◌, ◌<◌, ◌≡◌, refl, ◌∙◌, [], ◌∷◌, ◌++◌, some, arith, length,
  length-append, append_assoc, get_elem?, le→leb, lt→leb, ◌==◌, if◌then◌else◌, subst,
}
use avfork.Outcome.{ok}
use avfork.Kernel.{Bytes}
use avfork.Syscall.Candidate.{path_max}
use avfork.Syscall.Exec.{Buffer, overlay, pmemcpy, write_one_byte, construct_path, read_cstr}

-- The bytes `s` stand in the buffer from index `i` on.
abbrev pub Holds : Buffer → ℕ → Bytes → Type 0
Holds buf i [] = Unit
Holds buf i (b ∷ bs) = (buf i ≡ some b) × Holds buf (suc i) bs

-- The bytes in front of the first NUL.
abbrev pub until_nul : Bytes → Bytes
until_nul [] = []
until_nul (b ∷ bs) = if b == 0 then [] else b ∷ until_nul bs

Holds-append :
    (buf : Buffer) (i : ℕ) (xs ys : Bytes)
    → Holds buf i xs
    → Holds buf (i + length xs) ys
    → Holds buf i (xs ++ ys)
Holds-append buf i [] ys h k = subst (λ j. Holds buf j ys) (omega arith) k
Holds-append buf i (x ∷ xs) ys h k =
    (h.0, Holds-append buf (suc i) xs ys h.1 (subst (λ j. Holds buf j ys) (omega arith) k))

-- What `overlay` puts there can be read there, and it leaves alone what ends before it.
overlay_at :
    (o : ℕ) (src : Bytes) (buf : Buffer) (k b : ℕ)
    → get_elem? src k ≡ some b
    → overlay o src buf (o + k) ≡ some b
unfolding overlay
overlay_at o src buf k b h =
    let e : o + k - o ≡ k = omega arith in rw (le→leb o (o + k) (omega arith), e, overlay, h)

overlay_below : (o : ℕ) (src : Bytes) (buf : Buffer) (i : ℕ) → i < o → overlay o src buf i ≡ buf i
unfolding overlay
overlay_below o src buf i h = rw (lt→leb o i h)

Holds-overlay_from :
    (o k : ℕ) (src rest : Bytes) (buf : Buffer)
    → ((j b : ℕ) → get_elem? rest j ≡ some b → get_elem? src (k + j) ≡ some b)
    → Holds (overlay o src buf) (o + k) rest
Holds-overlay_from o k src [] buf h = tt
Holds-overlay_from o k src (b ∷ rest) buf h = (
  overlay_at o src buf k b (subst (λ j. get_elem? src j ≡ some b) (omega arith) (h 0 b refl)),
  subst (λ j. Holds (overlay o src buf) j rest) (omega arith)
      (Holds-overlay_from o (suc k) src rest buf
        (λ j c e. subst (λ i. get_elem? src i ≡ some c) (omega arith) (h (suc j) c e))),
)

Holds-overlay : (o : ℕ) (src : Bytes) (buf : Buffer) → Holds (overlay o src buf) o src
Holds-overlay o src buf =
    subst (λ j. Holds (overlay o src buf) j src) (omega arith)
      (Holds-overlay_from o 0 src src buf
        (λ j b e. subst (λ i. get_elem? src i ≡ some b) (omega arith) e))

Holds-overlay_keep :
    (o i : ℕ) (src s : Bytes) (buf : Buffer)
    → i + length s ≤ o
    → Holds buf i s
    → Holds (overlay o src buf) i s
Holds-overlay_keep o i src [] buf h k = tt
Holds-overlay_keep o i src (b ∷ s) buf h k = (
  overlay_below o src buf i (omega arith) ∙ k.0,
  Holds-overlay_keep o (suc i) src s buf (omega arith) k.1,
)

-- A text and a NUL behind it are read as the text up to its first NUL.
read_cstr-Holds :
    (left i : ℕ) (s : Bytes) (buf : Buffer)
    → length s < left
    → Holds buf i (s ++ (0 ∷ []))
    → read_cstr left i buf ≡ ok (until_nul s)
unfolding read_cstr
read_cstr-Holds zero i s buf h k = absurd (omega arith)
read_cstr-Holds (suc left) i [] buf h k = rw (k.0, read_cstr)
read_cstr-Holds (suc left) i (b ∷ s) buf h k =
    ground (arith, k.0, read_cstr-Holds left (suc i) s buf (omega arith) k.1)

-- The four writes in a row.
written : Bytes → Bytes → Buffer → Buffer
written path filename buf =
    overlay (length path + 1 + length filename) (0 ∷ [])
      (overlay (length path + 1) filename (overlay (length path) (b'/' ∷ []) (overlay 0 path buf)))

construct_path-written :
    (path filename : Bytes) (buf : Buffer)
    → length filename + length path + 2 ≤ path_max
    → construct_path path filename buf ≡ ok (written path filename buf)
unfolding construct_path pmemcpy write_one_byte written
construct_path-written path filename buf h = ground arith

-- A write at the end of what the buffer holds makes it longer.
Holds-extend :
    (o : ℕ) (s src : Bytes) (buf : Buffer)
    → o ≡ length s
    → Holds buf 0 s
    → Holds (overlay o src buf) 0 (s ++ src)
Holds-extend o s src buf e h =
    Holds-append (overlay o src buf) 0 s src (Holds-overlay_keep o 0 src s buf (omega arith) h)
      (subst (λ j. Holds (overlay o src buf) j src) (omega arith) (Holds-overlay o src buf))

written-Holds :
    (path filename : Bytes) (buf : Buffer)
    → Holds (written path filename buf) 0 ((path ++ b'/' ∷ filename) ++ (0 ∷ []))
unfolding written
written-Holds path filename buf =
    subst (λ s. Holds (written path filename buf) 0 (s ++ (0 ∷ [])))
      (append_assoc path (b'/' ∷ []) filename)
      (Holds-extend (length path + 1 + length filename) ((path ++ b'/' ∷ []) ++ filename) (0 ∷ []) _
        (omega (arith, length-append (path ++ b'/' ∷ []) filename, length-append path (b'/' ∷ [])))
        (Holds-extend (length path + 1) (path ++ b'/' ∷ []) filename _
          (omega (arith, length-append path (b'/' ∷ [])))
          (Holds-extend (length path) path (b'/' ∷ []) _ refl (Holds-overlay 0 path buf))))

-- For a path that the candidate's check lets through, whatever the buffer held before, the four
-- writes stay inside the buffer, and the C string that then stands in it is the path, a slash and
-- the filename, up to the first NUL among these bytes.
pub construct_path-read_cstr :
    (path filename : Bytes) (buf : Buffer)
    → length filename + length path + 2 ≤ path_max
    → (buf' : Buffer) × (construct_path path filename buf ≡ ok buf')
      × (read_cstr path_max 0 buf' ≡ ok (until_nul (path ++ b'/' ∷ filename)))
construct_path-read_cstr path filename buf h = (
  written path filename buf,
  construct_path-written path filename buf h,
  read_cstr-Holds path_max 0 (path ++ b'/' ∷ filename) (written path filename buf)
      (omega (arith, length-append path (b'/' ∷ filename))) (written-Holds path filename buf),
)
