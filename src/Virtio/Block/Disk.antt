-- ===== src/Virtio/Block/Disk.antt =====
-- What a request does to the disk (`processRequest` in internal/dev/virtio_blk.go).
use rvwasm.Base.{
  ℕ, zero, suc, ◌+◌, ◌*◌, ◌%◌, ◌^◌, ◌≤◌, ◌<◌, Bool, true, false, not, ◌||◌, List, [], ◌∷◌, ◌++◌,
  ◌≡◌, refl, arith, Option, none, some, ltb, ◌==◌, if-keeps, Bool-cases, inl, inr, add64, add32,
  u64,
}
use rvwasm.Base.Arrays.{length, take, drop, length-++, length-take, length-drop}
use rvwasm.Virtio.Guest.{Memory, Answer, ok, err, copy_from_guest}
use rvwasm.Virtio.Guest.Holds.{Holds, pure-Holds, and_then-Holds, any-Holds, beside-Holds}
use rvwasm.Virtio.Chain.{VirtqDesc, is_writable}
use rvwasm.Virtio.Chain.Shape.{IsChain}
use rvwasm.Virtio.Queue.{Device, run, fail, copy_out}
use rvwasm.Virtio.Block.{
  Transfer, on_sent, send_disk, overwrite, on_received, receive_disk, on_id, send_id, transfer,
  virtio_blk_sector_size,
}

-- The lengths of descriptors fit `uint32`.
unfoldable pub AreSized : List VirtqDesc → Type 0
AreSized [] = Unit
AreSized (d ∷ ds) = (d.len < 2 ^ 32) × AreSized ds

pub IsChain-AreSized : (ds : List VirtqDesc) → IsChain ds → AreSized ds
unfolding IsChain AreSized
IsChain-AreSized [] h = tt
IsChain-AreSized (d ∷ []) (g, i, w) = (w, tt)
IsChain-AreSized (d ∷ e ∷ ds) (g, i, w, h) = (w, IsChain-AreSized (e ∷ ds) h)

pub length-overwrite :
    (off : ℕ) (buf disk : List ℕ)
    → off + length buf ≤ length disk
    → length (overwrite off buf disk) ≡ length disk
unfolding overwrite
length-overwrite off buf disk h =
    let tail = drop (off + length buf) disk in
    let e : length (take off disk ++ buf ++ tail) ≡ length disk = omega (
      arith,
      length-++ (take off disk ++ buf) tail,
      length-++ (take off disk) buf,
      length-take off disk,
      length-drop (off + length buf) disk,
    ) in
    e

pub copy_from_guest-length :
    {M : Type 0} (ops : Memory M) (n addr : ℕ) (m : M)
    → Holds (λ (bs : List ℕ). length bs ≡ n) (copy_from_guest ops n addr m)
unfolding copy_from_guest
copy_from_guest-length ops zero addr m = pure-Holds (λ (bs : List ℕ). length bs ≡ 0) [] m refl
copy_from_guest-length ops (suc n) addr m =
    let Size = λ (k : ℕ) (bs : List ℕ). length bs ≡ k in
    and_then-Holds (λ _. Unit) (Size (suc n)) _ _ (any-Holds _)
      (λ x m1 _.
        and_then-Holds (Size n) (Size (suc n)) _ _ (copy_from_guest-length ops n (add64 addr 1) m1)
          (λ rest m2 e. pure-Holds (Size (suc n)) (x % 2 ^ 8 ∷ rest) m2 (omega arith)))

abbrev pub total : List VirtqDesc → ℕ
total [] = 0
total (d ∷ ds) = d.len + total ds

-- A result leaves `n` bytes on the disk, and `Z` holds when there is none, which is a panic.
unfoldable pub Leaves : {M A : Type 0} → ℕ → Type 0 → Option (A × Device M (List ℕ)) → Type 0
Leaves n Z none = Z
Leaves n Z (some (a, d)) = length d.own ≡ n

unfoldable pub LeavesAfter : {M : Type 0} → ℕ → Type 0 → Transfer M → Type 0
LeavesAfter n Z none = Z
LeavesAfter n Z (some (good, used, d)) = length d.own ≡ n

module _ {M : Type 0} (ops : Memory M) (n : ℕ) (Z : Type 0) where
  pub run-Holds :
      {A : Type 0} (P : A → Type 0) (g : M → Answer A × M) (d : Device M (List ℕ))
      → Holds P (g d.mem)
      → Holds P (run g d)
  unfolding run
  run-Holds P g d h = beside-Holds P (g d.mem) (λ m. record d { mem = m }) h

  on_sent-LeavesAfter :
      (used : ℕ) (rest : Device M (List ℕ) → Transfer M) (p : Bool × Device M (List ℕ))
      → length p.1.own ≡ n
      → ((d : Device M (List ℕ)) → length d.own ≡ n → LeavesAfter n Z (rest d))
      → LeavesAfter n Z (on_sent ops used rest p)
  unfolding on_sent LeavesAfter fail
  on_sent-LeavesAfter used rest (false, d) e k = e
  on_sent-LeavesAfter used rest (true, d) e k = k d e

  send_disk-LeavesAfter :
      (xs : List VirtqDesc) (off used : ℕ) (d : Device M (List ℕ))
      → off < 2 ^ 64
      → AreSized xs
      → (2 ^ 64 ≤ off + total xs → Z)
      → length d.own ≡ n
      → LeavesAfter n Z (send_disk ops xs off used d)
  unfolding send_disk AreSized copy_out LeavesAfter
  send_disk-LeavesAfter [] off used d small sized z e = e
  send_disk-LeavesAfter (x ∷ xs) off used d small (w, sized) z e =
      let end = add64 off x.len in
      if-keeps (LeavesAfter n Z) (not (is_writable x) || ltb (length d.own) end) e
        (elim (Bool-cases (ltb end off)) [
          | inl b ↦ rw b (z (let f : 2 ^ 64 ≤ off + x.len = ground (arith, b) in omega arith))
          | inr b ↦ rw b (
              on_sent-LeavesAfter used _ _ e (λ d' e'.
                let f : end ≡ off + x.len = ground (arith, b) in
                send_disk-LeavesAfter xs end (add32 used x.len) d' (omega arith) sized
                  (λ l. z (omega arith)) e'))
        ])

  on_received-LeavesAfter :
      (off len used : ℕ) (rest : Device M (List ℕ) → Transfer M)
      (p : Answer (List ℕ) × Device M (List ℕ))
      → Holds (λ (bs : List ℕ). length bs ≡ len) p
      → length p.1.own ≡ n
      → off < 2 ^ 64
      → len < 2 ^ 32
      → ltb n (add64 off len) ≡ false
      → (2 ^ 64 ≤ off + len → Z)
      → ((d : Device M (List ℕ))
          → length d.own ≡ n
          → add64 off len ≡ off + len
          → LeavesAfter n Z (rest d))
      → LeavesAfter n Z (on_received ops off (add64 off len) used rest p)
  unfolding on_received LeavesAfter Holds fail
  on_received-LeavesAfter off len used rest (err e, d) h l a b c z k = l
  on_received-LeavesAfter off len used rest (ok buf, d) h l a b c z k =
      elim (Bool-cases (ltb (add64 off len) off)) [
        | inl t ↦ rw t (z (ground (arith, t)))
        | inr t ↦ rw t (
            let f : add64 off len ≡ off + len = ground (arith, t) in
            k (record d { own = overwrite off buf d.own })
              (let g = length-overwrite off buf d.own (ground (arith, c, f, h, l)) in omega arith)
              f)
      ]

  own :
      (addr len : ℕ) (d : Device M (List ℕ))
      → length d.own ≡ n
      → length (run (copy_from_guest ops len addr) d).1.own ≡ n
  unfolding run
  own addr len d e = e

  receive_disk-LeavesAfter :
      (xs : List VirtqDesc) (off used : ℕ) (d : Device M (List ℕ))
      → off < 2 ^ 64
      → AreSized xs
      → (2 ^ 64 ≤ off + total xs → Z)
      → length d.own ≡ n
      → LeavesAfter n Z (receive_disk ops xs off used d)
  unfolding receive_disk AreSized LeavesAfter
  receive_disk-LeavesAfter [] off used d small sized z e = e
  receive_disk-LeavesAfter (x ∷ xs) off used d small (w, sized) z e =
      elim (Bool-cases (is_writable x || ltb (length d.own) (add64 off x.len))) [
        | inl b ↦ rw b e
        | inr b ↦ rw b (
            on_received-LeavesAfter off x.len used _ (run (copy_from_guest ops x.len x.addr) d)
              (run-Holds _ _ d (copy_from_guest-length ops x.len x.addr d.mem))
              (own x.addr x.len d e) small w (ground (arith, b, e)) (λ l. z (omega arith))
              (λ d' e' f.
                receive_disk-LeavesAfter xs (add64 off x.len) used d' (omega arith) sized
                  (λ l. z (omega arith)) e'))
      ]

  send_id-LeavesAfter :
      (xs : List VirtqDesc) (used : ℕ) (d : Device M (List ℕ))
      → length d.own ≡ n
      → LeavesAfter n Z (send_id ops xs used d)
  unfolding send_id on_id copy_out LeavesAfter
  send_id-LeavesAfter [] used d e = e
  send_id-LeavesAfter (x ∷ xs) used d e = if-keeps (LeavesAfter n Z) (is_writable x) e e

  kept :
      (good : Bool) (d : Device M (List ℕ)) → length d.own ≡ n → LeavesAfter n Z (some (good, 1, d))
  unfolding LeavesAfter
  kept good d e = e

  pub transfer-LeavesAfter :
      (typ sector : ℕ) (xs : List VirtqDesc) (d : Device M (List ℕ))
      → AreSized xs
      → (2 ^ 64 ≤ u64 (sector * virtio_blk_sector_size) + total xs → Z)
      → length d.own ≡ n
      → LeavesAfter n Z (transfer ops typ sector xs d)
  unfolding transfer
  transfer-LeavesAfter typ sector xs d sized z e =
      let off = u64 (sector * virtio_blk_sector_size) in
      if-keeps (LeavesAfter n Z) (typ == 0)
        (send_disk-LeavesAfter xs off 1 d (omega arith) sized z e)
        (if-keeps (LeavesAfter n Z) (typ == 1)
          (receive_disk-LeavesAfter xs off 1 d (omega arith) sized z e)
          (if-keeps (LeavesAfter n Z) (typ == 4) (kept true d e) (
            if-keeps (LeavesAfter n Z) (typ == 8) (send_id-LeavesAfter xs 1 d e) (kept false d e))))

-- The data part of a request, over descriptors whose lengths fit 32 bits, panics only if the
-- offset of its sector in 64 bits and the lengths of its data descriptors add up to 2^64 or more;
-- otherwise the disk keeps its length.
pub transfer-panic :
    {M : Type 0} (ops : Memory M) (typ sector : ℕ) (xs : List VirtqDesc) (d : Device M (List ℕ))
    → AreSized xs
    → LeavesAfter
        (length d.own)
        (2 ^ 64 ≤ u64 (sector * virtio_blk_sector_size) + total xs)
        (transfer ops typ sector xs d)
transfer-panic ops typ sector xs d sized =
    transfer-LeavesAfter ops (length d.own) _ typ sector xs d sized (λ h. h) refl
