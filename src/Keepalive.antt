-- ===== src/Keepalive.antt =====
-- internal/nexodus/keepalive.go: the echo requests that probe a peer. Bytes are numbers below 256;
-- what the network answers to a ping is an input.
pub mod Checksum
pub mod Echo
mod Tests
use nexodus.Prelude.{
  ℕ, zero, suc, ◌+◌, ◌-◌, ◌*◌, ◌/◌, ◌%◌, ◌^◌, String, Bool, true, false, Option, none, some, List,
  [], ◌∷◌, ◌++◌, get_elem?, length, ltb, eqb, if◌then◌else◌,
}

abbrev pub u16 : ℕ → ℕ
u16 n = n % 65536

abbrev pub u32 : ℕ → ℕ
u32 n = n % 4294967296

-- The loop of cksum: two bytes in a round, and a last byte that is alone.
unfoldable pub add_words : ℕ → List ℕ → ℕ
add_words acc [] = acc
add_words acc (a ∷ []) = u32 (acc + u32 (a * 256))
add_words acc (a ∷ b ∷ bs) = add_words (u32 (u32 (acc + u32 (a * 256)) + b)) bs

abbrev pub fold_carry : ℕ → ℕ
fold_carry sum = u32 (sum / 65536 + sum % 65536)

-- `^uint16(sum)`, where a sum of 0xffff is 0.
unfoldable pub finish : ℕ → ℕ
finish sum = 65535 - u16 (if eqb sum 65535 then 0 else sum)

unfoldable pub cksum : List ℕ → ℕ
cksum bs = finish (fold_carry (fold_carry (add_words 0 bs)))

-- binary.BigEndian: the two bytes of a uint16, and back.
abbrev pub high_byte : ℕ → ℕ
high_byte n = u16 n / 256

abbrev pub low_byte : ℕ → ℕ
low_byte n = u16 n % 256

abbrev pub zeros : ℕ → List ℕ
zeros zero = []
zeros (suc n) = 0 ∷ zeros n

abbrev pub echo_type : Bool → ℕ
echo_type true = 128
echo_type false = 8

-- The message of pingOS, of PACKETSIZE bytes, with a checksum in the place for it.
unfoldable pub message : Bool → ℕ → ℕ → List ℕ
message v6 i sum =
    echo_type v6
    ∷ 0
    ∷ high_byte sum
    ∷ low_byte sum
    ∷ high_byte (i / 65536)
    ∷ low_byte (i / 65536)
    ∷ high_byte i
    ∷ low_byte i
    ∷ zeros 56

unfoldable pub request : Bool → ℕ → List ℕ
request v6 i = message v6 i (cksum (message v6 i 0))

-- A byte of the buffer for the reply, which is zero beyond what was read.
abbrev pub byte_at : List ℕ → ℕ → ℕ
byte_at bs k = elim (get_elem? bs k) [ some b ↦ b | none ↦ 0 ]

abbrev pub word_at : List ℕ → ℕ → ℕ
word_at bs k = byte_at bs k * 256 + byte_at bs (k + 1)

-- An IPv4 reply comes with its header of 20 bytes.
abbrev pub offset : Bool → ℕ
offset true = 0
offset false = 20

-- The test of the identifier and the sequence number.
unfoldable pub is_reply : Bool → ℕ → List ℕ → Bool
is_reply v6 i bs = eqb (word_at bs (offset v6 + 4) * 65536 + word_at bs (offset v6 + 6)) i

-- What doPing returns: an error, or the latency.
pub data Pinged : Type 0 where
  ping_error : String → Pinged
  latency : String → Pinged

-- The loop of ping over the rounds left; the last result is returned.
unfoldable pub ping_loop : (ℕ → Pinged) → ℕ → ℕ → String → Pinged
ping_loop do_ping zero i last = latency last
ping_loop do_ping (suc n) i last = elim (do_ping (i + 1)) [
  | ping_error e ↦ ping_error e
  | latency l ↦ ping_loop do_ping n (i + 1) l
]

abbrev pub iterations : ℕ
iterations = 1

-- `i <= iterations` makes one round more than `iterations`.
unfoldable pub ping : (ℕ → Pinged) → Pinged
ping do_ping = ping_loop do_ping (iterations + 1) 0 ""

-- `api.KeepaliveStatus` with `IsReachable`, for a peer and its host name and method.
pub record KeepaliveStatus : Type 0 where
  pub wg_ip : String
  pub hostname : String
  pub latency_text : String
  pub method : String
  pub is_reachable : Bool

abbrev pub probe_result : Pinged → KeepaliveStatus → KeepaliveStatus
probe_result (ping_error e) s = record s { latency_text = "-"; is_reachable = false }
probe_result (latency l) s = record s { latency_text = l; is_reachable = true }

unfoldable pub run_probe : (ℕ → Pinged) → KeepaliveStatus → KeepaliveStatus
run_probe do_ping s = probe_result (ping do_ping) s
