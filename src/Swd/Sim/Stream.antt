-- ===== src/Swd/Sim/Stream.antt =====
-- What the simulated wire reads from the streams that swd/transfer.go packs.
use ostiole.Base.{
  ℕ, zero, suc, ◌+◌, ◌^◌, ◌<◌, ◌≡◌, refl, ap, ◌∙◌, inl, inr, Bool, true, false, differs, List, [],
  ◌∷◌, ◌++◌, arith, if◌then◌else◌, length, get_or, replicate, length-append, Bool-cases, none,
}
use mathlib.Core.List.{append_assoc}
use native.Mathlib.Nat.{zero-add, suc-add}
use native.Mathlib.Decide.{ℕ_discrete}
use ostiole.Base.Bits.{test_bit}
use ostiole.Base.Buffer.{bit_at, gather_ext, gather-test_bit}
use ostiole.Go.State.{ok}
use ostiole.Swd.Types.{Conn, Request}
use ostiole.Swd.Sequence.{empty, append_byte}
use ostiole.Swd.Sequence.Packing.{
  IsPacked, IsStream, empty-IsStream, append-IsStream, append_n-IsStream, append_low-IsStream,
  append_byte-IsStream, low_bits,
}
use ostiole.Swd.Frame
use ostiole.Swd.Frame.{request_byte, parity32}
use ostiole.Swd.Sim.Frames.{all_bits, byte_at, uint32_at, decode_request, validate_fixed_direction}
use ostiole.Swd.Sim.Header.{IsRegister, by_register, decode_at}

-- `all_bits` on the bits themselves.
abbrev all_of : List Bool → ℕ → ℕ → Bool → Bool
all_of bs offset zero want = true
all_of bs offset (suc count) want =
    let rest = all_of bs (offset + 1) count want in
    if differs (get_or bs offset false) want then false else rest

pub all_bits-all_of :
    {buf : List ℕ} {bs : List Bool} (p : IsPacked buf bs) (o n : ℕ) (want : Bool)
    → all_bits buf o n want ≡ all_of bs o n want
unfolding all_bits
all_bits-all_of p o zero want = refl
all_bits-all_of p o (suc n) want = rw (p.holds o, all_bits-all_of p (o + 1) n want)

-- A byte or a word that lies among the bits.
pub byte_at-low_bits :
    {buf : List ℕ} {bs : List Bool} (p : IsPacked buf bs) (o v : ℕ)
    → v < 2 ^ 8
    → ((i : ℕ) → i < 8 → get_or bs (o + i) false ≡ test_bit v i)
    → byte_at buf o ≡ v
unfolding byte_at
byte_at-low_bits p o v h same =
    gather_ext _ (test_bit v) 8 (λ i l. p.holds (o + i) ∙ same i l) ∙ gather-test_bit v 8 h

pub uint32_at-low_bits :
    {buf : List ℕ} {bs : List Bool} (p : IsPacked buf bs) (o v : ℕ)
    → v < 2 ^ 32
    → ((i : ℕ) → i < 32 → get_or bs (o + i) false ≡ test_bit v i)
    → uint32_at buf o ≡ v
unfolding uint32_at
uint32_at-low_bits p o v h same =
    gather_ext _ (test_bit v) 32 (λ i l. p.holds (o + i) ∙ same i l) ∙ gather-test_bit v 32 h

-- The streams of a fixed frame, of a header and of the two data phases.
abbrev header_out : Request → List Bool
header_out req = low_bits 8 (request_byte req)

abbrev read_directions : List Bool
read_directions =
    replicate 8 true ++ (replicate 4 false ++ (replicate 34 false ++ replicate 8 true))

abbrev read_outputs : Request → List Bool
read_outputs req =
    header_out req ++ (replicate 4 false ++ (replicate 34 false ++ replicate 8 false))

abbrev write_directions : List Bool
write_directions =
    replicate 8 true
    ++ (replicate 4 false
        ++ (replicate 1 false ++ (replicate 32 true ++ (true ∷ replicate 8 true))))

abbrev write_outputs : Request → ℕ → List Bool
write_outputs req value =
    header_out req
    ++ (replicate 4 false
        ++ (replicate 1 false ++ (low_bits 32 value ++ (parity32 value ∷ replicate 8 false))))

module _ (c : Conn) (t : c.turnaround ≡ 1) (i : c.idle_cycles ≡ 8) (req : Request) where
  header-IsStream :
      IsStream (append_byte empty true (request_byte req)) (replicate 8 true) (header_out req)
  header-IsStream = append_byte-IsStream (request_byte req) empty [] [] true empty-IsStream

  pub fixed_read-IsStream :
      (value : ℕ)
      → req.read ≡ true
      → IsStream (Frame.fixed_frame c req value) read_directions (read_outputs req)
  unfolding Frame.fixed_frame
  fixed_read-IsStream value r =
      simp (t, i, r)
        (append_n-IsStream 8 _ _ _ true false (
          append_n-IsStream 34 _ _ _ false false
            (append_n-IsStream 4 _ _ _ false false header-IsStream)))

  pub fixed_write-IsStream :
      (value : ℕ)
      → req.read ≡ false
      → IsStream (Frame.fixed_frame c req value) write_directions (write_outputs req value)
  unfolding Frame.fixed_frame
  fixed_write-IsStream value r =
      simp (t, i, r)
        (append_n-IsStream 8 _ _ _ true false (
          append-IsStream _ _ _ true (parity32 value) (
            append_low-IsStream 32 value _ _ _ true (
              append_n-IsStream 1 _ _ _ false false
                (append_n-IsStream 4 _ _ _ false false header-IsStream)))))

get_or-append_add :
    (xs ys : List Bool) (i : ℕ) → get_or (xs ++ ys) (length xs + i) false ≡ get_or ys i false
get_or-append_add [] ys i = rw (zero-add i)
get_or-append_add (x ∷ xs) ys i = rw (suc-add (length xs) i) (get_or-append_add xs ys i)

length-low_bits : (n v : ℕ) → length (low_bits n v) ≡ n
length-low_bits zero v = refl
length-low_bits (suc n) v =
    omega (arith, length-append (low_bits n v) (test_bit v n ∷ []), length-low_bits n v)

get_or-low_bits :
    (n v i : ℕ) (rest : List Bool) → i < n → get_or (low_bits n v ++ rest) i false ≡ test_bit v i
get_or-low_bits zero v i rest h = elim h [ ]
get_or-low_bits (suc n) v i rest h =
    ap (λ l. get_or l i false) (append_assoc (low_bits n v) (test_bit v n ∷ []) rest)
    ∙ elim (ℕ_discrete i n) [
      | yes e ↦ rw e (
          ap (λ k. get_or (low_bits n v ++ test_bit v n ∷ rest) k false)
            (omega (arith, length-low_bits n v))
          ∙ get_or-append_add (low_bits n v) (test_bit v n ∷ rest) 0)
      | no e ↦ get_or-low_bits n v i (test_bit v n ∷ rest) (omega arith)
    ]

abbrev IsOctet : Bool → Bool → ℕ → Type 0
IsOctet ap read addr = request_byte (record { ap = ap; read = read; addr = addr }) < 2 ^ 8

request_byte-IsOctet : (ap read : Bool) (addr : ℕ) → IsRegister addr → IsOctet ap read addr
unfolding request_byte
request_byte-IsOctet true true =
    by_register (IsOctet true true) (omega arith) (omega arith) (omega arith) (omega arith)
request_byte-IsOctet true false =
    by_register (IsOctet true false) (omega arith) (omega arith) (omega arith) (omega arith)
request_byte-IsOctet false true =
    by_register (IsOctet false true) (omega arith) (omega arith) (omega arith) (omega arith)
request_byte-IsOctet false false =
    by_register (IsOctet false false) (omega arith) (omega arith) (omega arith) (omega arith)

-- The header is read back where it stands at the head of the stream.
pub decode-header :
    {buf : List ℕ} (req : Request) (rest : List Bool)
    → IsRegister req.addr
    → IsPacked buf (header_out req ++ rest)
    → decode_request (byte_at buf 0) ≡ ok req
decode-header req rest reg p =
    ap decode_request (
      byte_at-low_bits p 0 (request_byte req) (request_byte-IsOctet req.ap req.read req.addr reg)
        (λ i l. rw (zero-add i) (get_or-low_bits 8 (request_byte req) i rest l)))
    ∙ decode_at req.ap req.read req.addr reg

-- What the wire sees of a fixed frame that stands at `o`.
pub record IsFrame (req : Request) (value : ℕ) (direction output : List ℕ) (o : ℕ) : Type 0 where
  pub header_driven : all_bits direction o 8 true ≡ true
  pub ack_sampled : all_bits direction (o + 8) 4 false ≡ true
  pub header : decode_request (byte_at output o) ≡ ok req
  pub directed : validate_fixed_direction req direction o ≡ none
  pub idle_low : all_bits output (o + 46) 8 false ≡ true
  pub word : req.read ≡ false → uint32_at output (o + 13) ≡ value
  pub word_parity : req.read ≡ false → bit_at output (o + 45) ≡ parity32 value

module _ (c : Conn) (t : c.turnaround ≡ 1) (i : c.idle_cycles ≡ 8) (req : Request)
    (reg : IsRegister req.addr) (value : ℕ) (fits : value < 2 ^ 32) where
  fixed_read-IsFrame :
      req.read ≡ true
      → let q = Frame.fixed_frame c req value in IsFrame req value q.direction q.output 0
  unfolding validate_fixed_direction
  fixed_read-IsFrame r =
      let st = fixed_read-IsStream c t i req value r in
      record {
        header_driven = all_bits-all_of st.directions 0 8 true;
        ack_sampled = all_bits-all_of st.directions 8 4 false;
        header = decode-header req _ reg st.outputs;
        directed =
            simp (
              r,
              all_bits-all_of st.directions 12 34 false,
              all_bits-all_of st.directions 46 8 true,
            );
        idle_low = all_bits-all_of st.outputs 46 8 false;
        word = λ e. absurd (cc);
        word_parity = λ e. absurd (cc);
      }

  fixed_write-IsFrame :
      req.read ≡ false
      → let q = Frame.fixed_frame c req value in IsFrame req value q.direction q.output 0
  unfolding validate_fixed_direction
  fixed_write-IsFrame r =
      let st = fixed_write-IsStream c t i req value r in
      record {
        header_driven = all_bits-all_of st.directions 0 8 true;
        ack_sampled = all_bits-all_of st.directions 8 4 false;
        header = decode-header req _ reg st.outputs;
        directed =
            simp (
              r,
              all_bits-all_of st.directions 12 1 false,
              all_bits-all_of st.directions 13 41 true,
            );
        idle_low = all_bits-all_of st.outputs 46 8 false;
        word = λ e. uint32_at-low_bits st.outputs 13 value fits (λ j l.
            get_or-append_add (header_out req ++ (replicate 4 false ++ replicate 1 false))
              (low_bits 32 value ++ parity32 value ∷ replicate 8 false) j
            ∙ get_or-low_bits 32 value j (parity32 value ∷ replicate 8 false) l);
        word_parity = λ e. st.outputs.holds 45;
      }

  pub fixed_frame-IsFrame :
      let q = Frame.fixed_frame c req value in IsFrame req value q.direction q.output 0
  fixed_frame-IsFrame = elim (Bool-cases req.read) [
    | inl r ↦ fixed_read-IsFrame r
    | inr r ↦ fixed_write-IsFrame r
  ]
