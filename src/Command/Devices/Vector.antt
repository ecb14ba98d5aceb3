-- ===== src/Command/Devices/Vector.antt =====
-- The bits of `cmd_get_dev_bvector` of src/ad_cmd.c.
use libgate.Base.{
  ℕ, zero, suc, ◌+◌, ◌*◌, ◌/◌, ◌%◌, ◌^◌, ◌<◌, ◌≡◌, refl, ap, ◌∙◌, sym, arith, ◌&&◌, ◌==◌, ltb,
  if◌then◌else◌, bit_or, Bool-cases, inl, inr,
}
use libgate.Base.Bits.{bit_or-zero, bit_or-power, pow_mono}
use native.Mathlib.Nat.{pow-suc}
use libgate.Gate.{Gate, Dev}
use libgate.Command.Devices.{bvector_loop, cmd_get_dev_bvector}

-- `v >> i & 1`
unfoldable pub bit : ℕ → ℕ → ℕ
bit zero v = v % 2
bit (suc i) v = bit i (v / 2)

abbrev digit : Dev → ℕ
digit d = if d.activ == 1 then 1 else 0

-- At most `m` devices of the `left` ones from `dev` on, the first one in the lowest bit.
vector : ℕ → ℕ → (ℕ → Dev) → ℕ → ℕ
vector zero m devices dev = 0
vector (suc left) zero devices dev = 0
vector (suc left) (suc m) devices dev = digit (devices dev) + 2 * vector left m devices (dev + 1)

loop_full : (left dev v : ℕ) (devices : ℕ → Dev) → bvector_loop left devices dev v 0 ≡ v
unfolding bvector_loop
loop_full zero dev v devices = refl
loop_full (suc left) dev v devices = elim (Bool-cases ((devices dev).activ == 1)) [
  | inl e ↦ rw (e, bit_or-zero v) (loop_full left (dev + 1) v devices)
  | inr e ↦ rw e (loop_full left (dev + 1) v devices)
]

joined : (p a v x : ℕ) → (v + a * p) + p * 2 * x ≡ v + p * (a + 2 * x)
joined p a v x = grind arith

-- The vector with one more device.
abbrev grown : Dev → ℕ → ℕ → ℕ
grown d v b = if d.activ == 1 then bit_or v b else v

grown_lem :
    (d : Dev) (k v : ℕ)
    → v < 2 ^ k
    → (grown d v (2 ^ k) ≡ v + digit d * 2 ^ k) × (grown d v (2 ^ k) < 2 ^ suc k)
grown_lem d k v h = elim (Bool-cases (d.activ == 1)) [
  | inl e ↦ rw (e, bit_or-power k v h) (omega (arith, pow-suc 2 k), omega (arith, pow-suc 2 k))
  | inr e ↦ rw e (omega (arith, pow-suc 2 k), omega (arith, pow-suc 2 k))
]

vector-none : (left : ℕ) (devices : ℕ → Dev) (dev : ℕ) → vector left 0 devices dev ≡ 0
unfolding vector
vector-none zero devices dev = refl
vector-none (suc left) devices dev = refl

loop_vector :
    (left m k dev v : ℕ) (devices : ℕ → Dev)
    → k + suc m ≡ 64
    → v < 2 ^ k
    → bvector_loop left devices dev v (2 ^ k) ≡ v + 2 ^ k * vector left (suc m) devices dev
unfolding bvector_loop vector
loop_vector zero m k dev v devices e h = omega arith
loop_vector (suc left) zero k dev v devices e h =
    let d : Dev = devices dev in
    let (sum, small) = grown_lem d k v h in
    let last : k ≡ 63 = omega arith in
    ap (bvector_loop left devices (dev + 1) (grown d v (2 ^ k))) (ap (λ j. 2 ^ j * 2 % 2 ^ 64) last)
    ∙ loop_full left (dev + 1) (grown d v (2 ^ k)) devices
    ∙ sum
    ∙ (let e : v + digit d * 2 ^ k ≡ v + digit d * 2 ^ k + 2 ^ k * 2 * 0 = omega arith in e)
    ∙ joined (2 ^ k) (digit d) v 0
    ∙ ap (λ x. v + 2 ^ k * (digit d + 2 * x)) (sym (vector-none left devices (dev + 1)))
loop_vector (suc left) (suc m) k dev v devices e h =
    let d : Dev = devices dev in
    let (sum, small) = grown_lem d k v h in
    let doubled : 2 ^ k * 2 % 2 ^ 64 ≡ 2 ^ suc k =
      omega (arith, pow-suc 2 k, pow_mono (suc k) 63 (omega arith)) in
    ap (bvector_loop left devices (dev + 1) (grown d v (2 ^ k))) doubled
    ∙ loop_vector left m (suc k) (dev + 1) (grown d v (2 ^ k)) devices (omega arith) small
    ∙ ap (λ x. x + 2 ^ suc k * vector left (suc m) devices (dev + 1)) sum
    ∙ ap (λ p. v + digit d * 2 ^ k + p * vector left (suc m) devices (dev + 1)) (pow-suc 2 k)
    ∙ joined (2 ^ k) (digit d) v (vector left (suc m) devices (dev + 1))

bit-nothing : (i : ℕ) → bit i 0 ≡ 0
unfolding bit
bit-nothing zero = refl
bit-nothing (suc i) = bit-nothing i

digit_half : (d : Dev) (x : ℕ) → ((digit d + 2 * x) % 2 ≡ digit d) × ((digit d + 2 * x) / 2 ≡ x)
digit_half d x = elim (Bool-cases (d.activ == 1)) [
  | inl e ↦ rw e (omega arith, omega arith)
  | inr e ↦ rw e (omega arith, omega arith)
]

bit-vector :
    (left m i : ℕ) (devices : ℕ → Dev) (dev : ℕ)
    → bit i (vector left m devices dev)
      ≡ (if ltb i left && ltb i m && (devices (dev + i)).activ == 1 then 1 else 0)
unfolding vector bit
bit-vector zero m i devices dev = bit-nothing i ∙ ground arith
bit-vector (suc left) zero i devices dev = bit-nothing i ∙ ground arith
bit-vector (suc left) (suc m) zero devices dev =
    (digit_half (devices dev) (vector left m devices (dev + 1))).0
    ∙ ap (λ j. digit (devices j)) (let e : dev ≡ dev + 0 = omega arith in e)
    ∙ ground arith
bit-vector (suc left) (suc m) (suc i) devices dev =
    ap (bit i) (digit_half (devices dev) (vector left m devices (dev + 1))).1
    ∙ bit-vector left m i devices (dev + 1)
    ∙ ap (λ j. if ltb i left && ltb i m && (devices j).activ == 1 then 1 else 0)
        (let e : dev + 1 + i ≡ dev + suc i = omega arith in e)
    ∙ ground arith

-- Bit `i` of the vector is set exactly where device `i + 1` is one of the devices and answers; devices
-- above the 64th have no bit.
pub cmd_get_dev_bvector_lem :
    (s : Gate) (i : ℕ)
    → bit i (cmd_get_dev_bvector s)
      ≡ (if ltb i s.cfg.max_dev_n && ltb i 64 && (s.devices (i + 1)).activ == 1 then 1 else 0)
unfolding cmd_get_dev_bvector
cmd_get_dev_bvector_lem s i =
    ap (bit i) (
      loop_vector s.cfg.max_dev_n 63 0 1 0 s.devices refl (omega arith)
      ∙ (let e : (x : ℕ) → 0 + 2 ^ 0 * x ≡ x = λ x. omega arith in
          e (vector s.cfg.max_dev_n 64 s.devices 1)))
    ∙ bit-vector s.cfg.max_dev_n 64 i s.devices 1
    ∙ ap (λ j. if ltb i s.cfg.max_dev_n && ltb i 64 && (s.devices j).activ == 1 then 1 else 0)
        (let e : 1 + i ≡ i + 1 = omega arith in e)
