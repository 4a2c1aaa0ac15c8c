-- ===== src/Disk/Transfer.antt =====
-- What a read leaves in the buffer.
use dist_lfsck.Disk.{Image, Memory, load, read_at, Holds}
use dist_lfsck.Prelude.{
  ℕ, zero, suc, ◌+◌, ◌<◌, ◌≤◌, ◌≡◌, refl, sym, ap, ◌∙◌, [], ◌∷◌, arith, Bytes, length,
}

-- Inside the request and the device the buffer holds the device's byte.
pub read_at_inside :
    (image : Image) (off n : ℕ) (buf : Memory) (k : ℕ)
    → k < n
    → off + k < image.size
    → read_at image off n buf k ≡ image.byte (off + k)
unfolding read_at
read_at_inside image off n buf k h in_device = ground arith

-- Behind the request, and behind the end of the device, the buffer keeps its old byte.
pub read_at_outside :
    (image : Image) (off n : ℕ) (buf : Memory) (k : ℕ) → (n ≤ k) → read_at image off n buf k ≡ buf k
unfolding read_at
read_at_outside image off n buf k h = ground arith

load_cong :
    (n : ℕ) (m w : Memory) (o : ℕ)
    → ((k : ℕ) → o ≤ k → k < o + n → m k ≡ w k)
    → load n m o ≡ load n w o
unfolding load
load_cong zero m w o h = refl
load_cong (suc n) m w o h =
    let first = h o (omega arith) (omega arith) in
    let rest = load_cong n m w (o + 1) (λ k from upto. h k (omega arith) (omega arith)) in
    rw (first, rest)

-- The device from an offset on.
abbrev pub on_device : Image → ℕ → Memory
on_device image off k = image.byte (off + k)

-- A field inside what was read, and inside the device, is the field on the device.
pub load-read_at :
    (image : Image) (off size : ℕ) (buf : Memory) (n o : ℕ)
    → o + n ≤ size
    → off + size ≤ image.size
    → load n (read_at image off size buf) o ≡ load n (on_device image off) o
load-read_at image off size buf n o inside held =
    load_cong n (read_at image off size buf) (on_device image off) o
      (λ k from upto. read_at_inside image off size buf k (omega arith) (omega arith))

-- Bytes that the device holds inside what is read are in the buffer.
pub Holds-read_at :
    (image : Image) (off n : ℕ) (buf : Memory) (o : ℕ) (bs : Bytes)
    → o + length bs ≤ n
    → off + n ≤ image.size
    → Holds (on_device image off) o bs
    → Holds (read_at image off n buf) o bs
Holds-read_at image off n buf o [] inside held h = tt
Holds-read_at image off n buf o (b ∷ bs) inside held h = (
  read_at_inside image off n buf o (omega arith) (omega arith) ∙ h.0,
  Holds-read_at image off n buf (o + 1) bs (omega arith) held h.1,
)

-- Bytes at an offset behind a place of the device stand at the start of what lies there.
pub Holds-on_device :
    (image : Image) (off o p place : ℕ) (bs : Bytes)
    → off + o ≡ place + p
    → Holds (on_device image off) o bs
    → Holds (on_device image place) p bs
Holds-on_device image off o p place [] e h = tt
Holds-on_device image off o p place (b ∷ bs) e h = (
  ap image.byte (sym e) ∙ h.0,
  Holds-on_device image off (o + 1) (p + 1) place bs (omega arith) h.1,
)
