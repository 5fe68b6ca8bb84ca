-- ===== src/Dap/Segments.antt =====
-- dap/memap_block.go: how a range of target memory is cut into transfers. An address has 64 bits and
-- wraps around; a length is not negative.
use ostiole.Base.{
  ℕ, zero, suc, ◌+◌, ◌-◌, ◌*◌, ◌/◌, ◌%◌, ◌^◌, Bool, true, false, not, ◌&&◌, List, [], ◌∷◌, ◌++◌,
  ltb, leb, ◌==◌, if◌then◌else◌, min, Option, none, some,
}
use ostiole.Go.Errors.{Error, failed}

pub data TransferSize : Type 0 where
  size8 size16 size32 size64 : TransferSize

-- sizeBytes, which has no error for these
abbrev pub size_bytes : TransferSize → ℕ
size_bytes size8 = 1
size_bytes size16 = 2
size_bytes size32 = 4
size_bytes size64 = 8

pub record BlockSegment : Type 0 where
  pub offset : ℕ
  pub address : ℕ
  pub size : TransferSize
  pub count : ℕ
  pub auto_increment : Bool

-- The variables that `blockSegments` changes.
pub record Cutting : Type 0 where
  pub segments : List BlockSegment
  pub offset : ℕ
  pub addr : ℕ

abbrev pub append_segment : TransferSize → ℕ → Bool → Cutting → Cutting
append_segment size count auto_increment b =
    let step = size_bytes size * count in
    record {
      segments =
          b.segments
          ++ record {
            offset = b.offset;
            address = b.addr;
            size = size;
            count = count;
            auto_increment = auto_increment;
          }
            ∷ [];
      offset = b.offset + step;
      addr = (b.addr + step) % 2 ^ 64;
    }

abbrev pub edge_size : ℕ → ℕ → TransferSize
edge_size addr left = if addr % 2 == 0 && leb 2 left then size16 else size8

abbrev pub append_edge : ℕ → Cutting → Cutting
append_edge length b = append_segment (edge_size b.addr (length - b.offset)) 1 false b

-- The scalars before the first aligned word.
unfoldable pub head_loop : ℕ → ℕ → Cutting → Cutting
head_loop zero length b = b
head_loop (suc fuel) length b =
    let rest = head_loop fuel length (append_edge length b) in
    if ltb b.offset length && not (b.addr % 4 == 0) then rest else b

-- tarAutoIncrementWindow is 0x400.
abbrev pub window_words : ℕ → ℕ
window_words addr = (0x400 - addr % 0x400) / 4

abbrev pub append_words : ℕ → Cutting → Cutting
append_words words b = append_segment size32 (min words (window_words b.addr)) true b

unfoldable pub word_loop : ℕ → ℕ → Cutting → Cutting
word_loop zero words b = b
word_loop (suc fuel) words b =
    let rest = word_loop fuel (words - min words (window_words b.addr)) (append_words words b) in
    if ltb 0 words then rest else b

unfoldable pub tail_loop : ℕ → ℕ → Cutting → Cutting
tail_loop zero length b = b
tail_loop (suc fuel) length b =
    let rest = tail_loop fuel length (append_edge length b) in
    if ltb b.offset length then rest else b

-- Each loop has a round for each byte or word, and each round takes at least one.
unfoldable pub block_segments : ℕ → ℕ → List BlockSegment
unfolding head_loop word_loop tail_loop
block_segments addr length =
    let head = head_loop length length (record { segments = []; offset = 0; addr = addr }) in
    let words = (length - head.offset) / 4 in
    (tail_loop length length (word_loop words words head)).segments

-- validateBlockRange; the complement of an address is its distance from the last one.
unfoldable pub validate_block_range : ℕ → ℕ → Bool → Option Error
validate_block_range addr length large_address =
    if length == 0
    then none
    else if ltb (2 ^ 64 - 1 - addr) (length - 1)
    then some (failed "dap: address range overflows")
    else if not large_address && ltb (2 ^ 32 - 1) ((addr + length - 1) % 2 ^ 64)
    then some (failed "dap: address range requires CFG.LA")
    else none
