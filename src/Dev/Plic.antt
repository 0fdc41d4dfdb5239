-- ===== src/Dev/Plic.antt =====
-- internal/dev/plic.go: the platform-level interrupt controller.
pub mod Best
use rvwasm.Base.{
  ℕ, zero, suc, ◌+◌, ◌-◌, ◌*◌, ◌/◌, ◌%◌, ◌^◌, Bool, true, false, not, ◌&&◌, ◌||◌, Option, none,
  some, List, [], ◌∷◌, ltb, leb, ◌==◌, if◌then◌else◌, has, and_not, u32, sub64, bit_or,
}
use rvwasm.Base.Arrays.{update}
use rvwasm.Mem.Bus.{is_size}
use rvwasm.Dev.Registers.{partial_read32, partial_write32}

abbrev plic_base : ℕ
plic_base = 0x0c00_0000

abbrev plic_pending_base : ℕ
plic_pending_base = 0x1000

abbrev plic_enable_base : ℕ
plic_enable_base = 0x2000

abbrev plic_enable_stride : ℕ
plic_enable_stride = 0x80

abbrev plic_context_base : ℕ
plic_context_base = 0x20_0000

abbrev plic_context_stride : ℕ
plic_context_stride = 0x1000

abbrev pub plic_source_count : ℕ
plic_source_count = 64

-- The words of `enable` for one context.
abbrev plic_words : ℕ
plic_words = 2

-- `contexts` is the length of `enable` and of `threshold`.
pub record Plic : Type 0 where
  pub priority : ℕ → ℕ
  pub pending : ℕ → Bool
  pub contexts : ℕ
  pub enable : ℕ → ℕ → ℕ
  pub threshold : ℕ → ℕ

-- `NewPLICWithContexts`
unfoldable pub new_plic : ℕ → Plic
new_plic contexts = record {
  priority = λ i. if leb 1 i && ltb i plic_source_count then 1 else 0;
  pending = λ _. false;
  contexts = if contexts == 0 then 2 else contexts;
  enable = λ _ _. 0;
  threshold = λ _. 0;
}

unfoldable pub enabled : Plic → ℕ → ℕ → Bool
enabled p ctx source = has (p.enable ctx (source / 32)) (2 ^ (source % 32))

-- The two tests of the loop of `best` that skip a source.
unfoldable pub is_candidate : Plic → ℕ → ℕ → Bool
is_candidate p ctx source =
    p.pending source
    && enabled p ctx source
    && not (p.priority source == 0 || leb (p.priority source) (p.threshold ctx))

-- The loop of `best` from a source on, with the rounds left, the best so far and its priority.
unfoldable pub best_from : Plic → ℕ → ℕ → ℕ → ℕ → ℕ → ℕ
best_from p ctx zero source best best_prio = best
best_from p ctx (suc n) source best best_prio =
    let prio = p.priority source in
    let taken = best_from p ctx n (source + 1) source prio in
    let kept = best_from p ctx n (source + 1) best best_prio in
    if not (is_candidate p ctx source)
    then kept
    else if ltb best_prio prio || prio == best_prio && (best == 0 || ltb source best)
    then taken
    else kept

unfoldable pub best : Plic → ℕ → ℕ
best p ctx = if leb p.contexts ctx then 0 else best_from p ctx (plic_source_count - 1) 1 0 0

-- `update`: what each context is told, from context `ctx` on.
unfoldable pub notify_from : Plic → ℕ → ℕ → List (ℕ × Bool)
notify_from p zero ctx = []
notify_from p (suc n) ctx = (ctx, not (best p ctx == 0)) ∷ notify_from p n (ctx + 1)

abbrev pub notified : Plic → Plic × List (ℕ × Bool)
notified p = (p, notify_from p p.contexts 0)

unfoldable pub set_irq : Plic → ℕ → Bool → Plic × List (ℕ × Bool)
set_irq p source level =
    if source == 0 || leb plic_source_count source
    then (p, [])
    else notified (record p { pending = update p.pending source level })

unfoldable pub claim : Plic → ℕ → ℕ × Plic × List (ℕ × Bool)
claim p ctx =
    let id = best p ctx in
    let after = (if id == 0 then p else record p { pending = update p.pending id false }) in
    (id, after, notify_from after after.contexts 0)

-- The word of the pending register: bit `i` from source `32 * word + i`.
unfoldable pub pending_bits : Plic → ℕ → ℕ → ℕ → ℕ
pending_bits p word zero i = 0
pending_bits p word (suc n) i =
    let id = word * 32 + i in
    let rest = pending_bits p word n (i + 1) in
    if ltb id plic_source_count && p.pending id then bit_or (2 ^ i) rest else rest

-- `Read`, for the answer, the controller after it and the notices.
unfoldable pub plic_read : Plic → ℕ → ℕ → ℕ × Plic × List (ℕ × Bool)
plic_read p addr size =
    let off = sub64 addr plic_base in
    let enable_off = off - plic_enable_base in
    let context_off = off - plic_context_base in
    let enable_end = plic_enable_base + p.contexts * plic_enable_stride in
    let context_end = plic_context_base + p.contexts * plic_context_stride in
    let ctx = context_off / plic_context_stride in
    let (id, after, told) = claim p ctx in
    if not (is_size size)
    then (0, p, [])
    else if ltb off (plic_source_count * 4)
    then (partial_read32 (p.priority (off / 4)) (off % 4) size, p, [])
    else if leb plic_pending_base off && ltb off (plic_pending_base + plic_words * 4)
    then (
      partial_read32 (pending_bits p ((off - plic_pending_base) / 4) 32 0) (off % 4) size,
      p,
      [],
    )
    else if leb plic_enable_base off
        && ltb off enable_end
        && ltb (enable_off % plic_enable_stride / 4) plic_words
    then (
      partial_read32
          (p.enable (enable_off / plic_enable_stride) (enable_off % plic_enable_stride / 4))
          (enable_off % plic_enable_stride % 4) size,
      p,
      [],
    )
    else if leb plic_context_base off && ltb off context_end
    then (if context_off % plic_context_stride == 0
        then (partial_read32 (p.threshold ctx) 0 size, p, [])
        else if context_off % plic_context_stride == 4
        then (partial_read32 id 0 size, after, told)
        else (0, p, []))
    else (0, p, [])

-- The enable word of source 0 never has its bit.
unfoldable pub set_enable : Plic → ℕ → ℕ → ℕ → Plic
set_enable p ctx word v =
    let words = update (p.enable ctx) word v in
    record p { enable = update p.enable ctx (update words 0 (and_not (words 0) 1)) }

unfoldable pub plic_write : Plic → ℕ → ℕ → ℕ → Plic × List (ℕ × Bool)
plic_write p addr size val =
    let off = sub64 addr plic_base in
    let enable_off = off - plic_enable_base in
    let context_off = off - plic_context_base in
    let enable_end = plic_enable_base + p.contexts * plic_enable_stride in
    let context_end = plic_context_base + p.contexts * plic_context_stride in
    let ctx = enable_off / plic_enable_stride in
    let word = enable_off % plic_enable_stride / 4 in
    let context = context_off / plic_context_stride in
    if not (is_size size)
    then (p, [])
    else if ltb off (plic_source_count * 4)
    then notified (record p {
      priority =
          update p.priority (off / 4) (partial_write32 (p.priority (off / 4)) (off % 4) size val);
    })
    else if leb plic_enable_base off && ltb off enable_end
    then (if ltb word plic_words
        then notified (
            set_enable p ctx word
              (partial_write32 (p.enable ctx word) (enable_off % plic_enable_stride % 4) size val))
        else (p, []))
    else if leb plic_context_base off && ltb off context_end
    then (if context_off % plic_context_stride == 0
        then notified (record p {
          threshold = update p.threshold context (partial_write32 (p.threshold context) 0 size val);
        })
        else if context_off % plic_context_stride == 4
        then notified p
        else (p, []))
    else (p, [])
