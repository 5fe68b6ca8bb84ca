-- ===== src/Dap/Tiles.antt =====
-- The segments of dap/memap_block.go cover the range they are cut from.
use ostiole.Base.{
  ℕ, zero, suc, ◌+◌, ◌-◌, ◌*◌, ◌/◌, ◌%◌, ◌^◌, ◌≤◌, ◌<◌, ◌≡◌, ◌≢◌, refl, inl, inr, Bool, true, false,
  not, ◌&&◌, List, [], ◌∷◌, ◌++◌, ltb, leb, ◌==◌, if◌then◌else◌, min, Bool-cases, none, ◌⊎◌, arith,
  sym, ap, subst, ◌∙◌,
}
use mathlib.Core.Bool.{true≢false}
use ostiole.Dap.Segments.{
  TransferSize, size8, size16, size32, size_bytes, BlockSegment, Cutting, append_segment,
  append_edge, head_loop, window_words, append_words, word_loop, tail_loop, block_segments,
  validate_block_range,
}

-- A transfer that a memory access port can make: aligned, and if it counts on the port to move the
-- address, a run of words inside one window of 0x400 bytes.
pub record IsTransfer (s : BlockSegment) : Type 0 where
  pub aligned : s.address % size_bytes s.size ≡ 0
  pub counted : s.count ≢ 0
  pub single : s.auto_increment ≡ false → s.count ≡ 1
  pub words : s.auto_increment ≡ true → s.size ≡ size32
  pub windowed :
      s.auto_increment ≡ true
      → s.address / 0x400 ≡ (s.address + (size_bytes s.size * s.count - 1)) / 0x400

-- `segments` are transfers that cover `n` bytes from `start` on, one after the other.
pub data Tiles (start : ℕ) : ℕ → List BlockSegment → Type 0 where
  none_yet : Tiles start 0 []
  then_one :
      (n : ℕ) (segments : List BlockSegment) (s : BlockSegment)
      → Tiles start n segments
      → IsTransfer s
      → s.offset ≡ n
      → s.address ≡ start + n
      → Tiles start (n + size_bytes s.size * s.count) (segments ++ s ∷ [])

record IsCut (start length : ℕ) (b : Cutting) : Type 0 where
  tiled : Tiles start b.offset b.segments
  within : b.offset ≤ length
  at : b.addr ≡ (start + b.offset) % 2 ^ 64

module _ (start length : ℕ) (fits : start + length ≤ 2 ^ 64) where
  inside : (b : Cutting) → IsCut start length b → b.offset < length → b.addr ≡ start + b.offset
  inside b h l = omega (arith, h.at, fits, l)

  append_segment-IsCut :
      (size : TransferSize) (count : ℕ) (auto : Bool) (b : Cutting)
      → IsCut start length b
      → b.offset < length
      → b.offset + size_bytes size * count ≤ length
      → IsTransfer (record {
        offset = b.offset;
        address = b.addr;
        size = size;
        count = count;
        auto_increment = auto;
      })
      → IsCut start length (append_segment size count auto b)
  append_segment-IsCut size count auto b h l room good =
      let here = inside b h l in
      record {
        tiled = then_one b.offset b.segments _ h.tiled good refl here;
        within = room;
        at =
            ap (λ a. (a + size_bytes size * count) % 2 ^ 64) here
            ∙ ap (λ n. n % 2 ^ 64) (omega arith);
      }

  append_edge-IsCut :
      (b : Cutting)
      → IsCut start length b
      → b.offset < length
      → IsCut start length (append_edge length b) × (b.offset < (append_edge length b).offset)
  append_edge-IsCut b h l = elim (Bool-cases (b.addr % 2 == 0 && leb 2 (length - b.offset))) [
    | inl t ↦ rw t (
      append_segment-IsCut size16 1 false b h l (ground (arith, t, l)) (record {
        aligned = ground (arith, t);
        counted = λ z. omega (arith, z);
        single = λ e. refl;
        words = λ e. absurd (true≢false (sym e));
        windowed = λ e. absurd (true≢false (sym e));
      }),
      omega arith,
    )
    | inr f ↦ rw f (
      append_segment-IsCut size8 1 false b h l (omega (arith, l)) (record {
        aligned = omega arith;
        counted = λ z. omega (arith, z);
        single = λ e. refl;
        words = λ e. absurd (true≢false (sym e));
        windowed = λ e. absurd (true≢false (sym e));
      }),
      omega arith,
    )
  ]

  -- The first loop stops at the end or at a word boundary.
  record IsAtWord (b : Cutting) : Type 0 where
    cut : IsCut start length b
    word : b.offset < length → b.addr % 4 ≡ 0

  head_loop-IsAtWord :
      (fuel : ℕ) (b : Cutting)
      → length ≤ b.offset + fuel
      → IsCut start length b
      → IsAtWord (head_loop fuel length b)
  unfolding head_loop
  head_loop-IsAtWord zero b enough h = record {
    cut = h;
    word = λ l. absurd (omega (arith, enough, l));
  }
  head_loop-IsAtWord (suc fuel) b enough h =
      elim (Bool-cases (ltb b.offset length && not (b.addr % 4 == 0))) [
        | inl t ↦ rw t (
            let next = append_edge-IsCut b h (ground (arith, t)) in
            head_loop-IsAtWord fuel (append_edge length b) (omega (arith, enough, next.1)) next.0)
        | inr f ↦ rw f (record { cut = h; word = λ l. ground (arith, f, l) })
      ]

  record IsRun (words : ℕ) (b : Cutting) : Type 0 where
    cut : IsCut start length b
    room : b.offset + words * 4 ≤ length
    word : words ≢ 0 → b.addr % 4 ≡ 0

  append_words-IsRun :
      (words : ℕ) (b : Cutting)
      → words ≢ 0
      → IsRun words b
      → IsRun (words - min words (window_words b.addr)) (append_words words b)
        × (min words (window_words b.addr) ≢ 0)
  append_words-IsRun words b some h =
      let l : b.offset < length = omega (arith, h.room, some) in
      let here = inside b h.cut l in
      let aligned = h.word some in
      (
        record {
          cut =
              append_segment-IsCut size32 (min words (window_words b.addr)) true b h.cut l
                (omega (arith, h.room))
                (record {
                  aligned = aligned;
                  counted = λ z. omega (arith, z, some, aligned);
                  single = λ e. absurd (true≢false e);
                  words = λ e. refl;
                  windowed = λ e. omega (arith, some, aligned);
                });
          room = omega (arith, h.room);
          word = λ more. omega (arith, more, here, aligned, fits, h.room);
        },
        λ z. omega (arith, z, some, aligned),
      )

  word_loop-IsCut :
      (fuel words : ℕ) (b : Cutting)
      → words ≤ fuel
      → IsRun words b
      → IsCut start length (word_loop fuel words b)
  unfolding word_loop
  word_loop-IsCut zero words b enough h = h.cut
  word_loop-IsCut (suc fuel) words b enough h = elim (Bool-cases (ltb 0 words)) [
    | inl t ↦ rw t (
        let next = append_words-IsRun words b (λ z. ground (arith, t, z)) h in
        word_loop-IsCut fuel (words - min words (window_words b.addr)) (append_words words b)
          (omega (arith, enough, next.1)) next.0)
    | inr f ↦ rw f h.cut
  ]

  tail_loop-IsCut :
      (fuel : ℕ) (b : Cutting)
      → length ≤ b.offset + fuel
      → IsCut start length b
      → IsCut start length (tail_loop fuel length b) × ((tail_loop fuel length b).offset ≡ length)
  unfolding tail_loop
  tail_loop-IsCut zero b enough h = (h, omega (arith, enough, h.within))
  tail_loop-IsCut (suc fuel) b enough h = elim (Bool-cases (ltb b.offset length)) [
    | inl t ↦ rw t (
        let next = append_edge-IsCut b h (ground (arith, t)) in
        tail_loop-IsCut fuel (append_edge length b) (omega (arith, enough, next.1)) next.0)
    | inr f ↦ rw f (h, ground (arith, f, h.within))
  ]

segments_cover :
    (start length : ℕ)
    → start + length ≤ 2 ^ 64
    → start < 2 ^ 64
    → Tiles start length (block_segments start length)
unfolding block_segments
segments_cover start length fits valid =
    let first : Cutting = record { segments = []; offset = 0; addr = start } in
    let head = head_loop length length first in
    let words = (length - head.offset) / 4 in
    let at_word =
      head_loop-IsAtWord start length fits length first (omega arith)
        (record { tiled = none_yet; within = omega arith; at = omega (arith, valid) }) in
    let run = word_loop-IsCut start length fits words words head (omega arith) (record {
      cut = at_word.cut;
      room = omega (arith, at_word.cut.within);
      word = λ some. at_word.word (omega (arith, some));
    }) in
    let whole =
      tail_loop-IsCut start length fits length (word_loop words words head) (omega arith) run in
    subst (λ n. Tiles start n (block_segments start length)) whole.1 whole.0.tiled

-- How much of the address space a memory access port reaches, with large addresses or without.
abbrev pub reach : Bool → ℕ
reach large_address = if large_address then 2 ^ 64 else 2 ^ 32

-- A range is accepted exactly where it is empty or ends within the reach of the port.
pub validate_block_range-IsWithin :
    (start length : ℕ) (large_address : Bool)
    → start < 2 ^ 64
    → (validate_block_range start length large_address ≡ none
        → (length ≡ 0) ⊎ (start + length ≤ reach large_address))
      × ((length ≡ 0) ⊎ (start + length ≤ reach large_address)
          → validate_block_range start length large_address ≡ none)
unfolding validate_block_range
validate_block_range-IsWithin start length true valid =
    (λ h. ground (arith, h, valid), λ h. ground (arith, h, valid))
validate_block_range-IsWithin start length false valid =
    (λ h. ground (arith, h, valid), λ h. ground (arith, h, valid))

-- The segments of an accepted range cover it exactly, one after the other. Each is aligned to its
-- size, and one that relies on the port to move the address is a run of words inside one window of
-- 0x400 bytes.
pub block_segments-Tiles :
    (start length : ℕ) (large_address : Bool)
    → start < 2 ^ 64
    → validate_block_range start length large_address ≡ none
    → Tiles start length (block_segments start length)
block_segments-Tiles start length large_address valid h =
    segments_cover start length
      (within large_address ((validate_block_range-IsWithin start length large_address valid).0 h))
      valid
  where
    within :
        (large : Bool) → (length ≡ 0) ⊎ (start + length ≤ reach large) → start + length ≤ 2 ^ 64
    within true h = ground (arith, h, valid)
    within false h = ground (arith, h, valid)
