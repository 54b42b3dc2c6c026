-- ===== src/Mtproto/Handshake/Group.antt =====
-- The group of the key exchange, and integers of math/big as bytes.
pub mod Exponent
pub mod Bytes
use messaging_app.Prelude.{
  List, Result, [], drop, if◌then◌else◌, leb, length, ltb, refuse, replicate, reverse, suc, zero, ℕ,
  ◌%◌, ◌++◌, ◌-◌, ◌/◌, ◌==◌, ◌>>=◌, ◌>>◌, ◌^◌, ◌||◌, ◌∷◌,
}
use messaging_app.Mtproto.{Error, bad_dh_value}

-- `dhPrime`, the prime of RFC 3526 that `initDH` reads from its digits.
abbrev pub dh_prime : ℕ
dh_prime =
    32317006071311007300338913926423828248817941241140239112842009751400741706634354222619689417363569347117901737909704191754605873209195028853758986185622153212175412514901774520270235796078236248884246189477587641105928646099411723245426622522193230540919037680524235519125679715870117001058055877651038861847280257976054903569732561526167081339361799541336476559160368317896729073178384589680639671900977202194168647225871031411336429319536193471636533209717077448227988588565369208645296636077250268955505928362751121174096972998068410554359584866583291642136218231078990999448652468262416972035911852507045361090559

-- `dhG`
abbrev pub dh_g : ℕ
dh_g = 2

-- `(*big.Int).Exp` to the modulus `dhPrime`
abbrev pub exp_mod : ℕ → ℕ → ℕ
exp_mod base e = base ^ e % dh_prime

-- The bytes of a number, lowest first, without leading zeros; `w` is the most there can be.
unfoldable pub digits : ℕ → ℕ → List ℕ
digits zero v = []
digits (suc w) v = let rest = digits w (v / 256) in if v == 0 then [] else v % 256 ∷ rest

-- `(*big.Int).Bytes` of a number of at most 256 bytes
unfoldable pub big_bytes : ℕ → List ℕ
big_bytes v = reverse (digits 256 v)

-- `leftPad`
unfoldable pub left_pad : List ℕ → ℕ → List ℕ
left_pad b size =
    if leb size (length b) then drop (length b - size) b else replicate (size - length b) 0 ++ b

-- `validateDHValue`
unfoldable pub validate_dh_value : ℕ → Result Error Unit
validate_dh_value v = do
  refuse (leb v 1 || leb (dh_prime - 1) v) bad_dh_value
  refuse (ltb v (2 ^ (2048 - 64))) bad_dh_value
  refuse (ltb (dh_prime - 2 ^ (2048 - 64)) v) bad_dh_value
