-- ===== src/Config/FrpGen.antt =====
-- pkg/config/frpgen.go: the bounded FRP proxy name of a route. SHA-256 in hexadecimal is a parameter.
use mathlib.Core.List.{reverse}
use qurl_connector.Base.{
  ℕ, zero, suc, ◌+◌, ◌-◌, ◌/◌, ◌%◌, Bool, true, false, not, ◌&&◌, ◌||◌, [], ◌∷◌, ◌++◌, Bytes, ltb,
  leb, nat_beq, is_empty, length, if◌then◌else◌,
}
use qurl_connector.Strings.{trim_space}
use qurl_connector.Utf8.{to_lower}

abbrev pub max_proxy_discriminator_len : ℕ
max_proxy_discriminator_len = 16

abbrev pub proxy_hash_suffix_len : ℕ
proxy_hash_suffix_len = 8

abbrev pub take : ℕ → Bytes → Bytes
take zero s = []
take (suc n) [] = []
take (suc n) (c ∷ s) = c ∷ take n s

-- The two other runes whose lower case is an ASCII letter, U+0130 and U+212A.
special_letters : Bytes → Bytes
special_letters [] = []
special_letters (c ∷ []) = c ∷ []
special_letters (c ∷ d ∷ []) = if nat_beq c 196 && nat_beq d 176 then b'i' ∷ [] else c ∷ d ∷ []
special_letters (c ∷ d ∷ e ∷ s) =
    let one = special_letters (d ∷ e ∷ s) in
    let two = special_letters (e ∷ s) in
    let three = special_letters s in
    if nat_beq c 196 && nat_beq d 176
    then b'i' ∷ two
    else if nat_beq c 226 && (nat_beq d 132 && nat_beq e 170)
    then b'k' ∷ three
    else c ∷ one

unfoldable pub is_alphanumeric : ℕ → Bool
is_alphanumeric c = (leb b'0' c && leb c b'9') || (leb b'a' c && leb c b'z')

-- The loop over the runes: whether a byte was written, and whether the last one was a hyphen.
unfoldable pub keep_name : Bool → Bool → Bytes → Bytes
unfolding is_alphanumeric
keep_name wrote last_hyphen [] = []
keep_name wrote last_hyphen (c ∷ s) =
    let letter = keep_name true false s in
    let hyphen = keep_name wrote true s in
    let skipped = keep_name wrote last_hyphen s in
    if is_alphanumeric c
    then c ∷ letter
    else if nat_beq c b'-' && (wrote && not last_hyphen)
    then b'-' ∷ hyphen
    else skipped

-- `strings.TrimRight(s, "-")`, on the reversal.
drop_hyphens : Bytes → Bytes
drop_hyphens [] = []
drop_hyphens (c ∷ s) = let rest = drop_hyphens s in if nat_beq c b'-' then rest else c ∷ s

unfoldable pub trim_hyphens : Bytes → Bytes
unfolding drop_hyphens
trim_hyphens s = reverse (drop_hyphens (reverse s))

module _ (sha256_hex : Bytes → Bytes) where
  unfoldable pub normalize_proxy_discriminator : Bytes → Bytes
  unfolding special_letters keep_name trim_hyphens
  normalize_proxy_discriminator raw =
      let out =
        trim_hyphens (keep_name false false (to_lower (special_letters (trim_space raw)))) in
      let prefix =
        trim_hyphens (take (max_proxy_discriminator_len - proxy_hash_suffix_len - 1) out) in
      if leb (length out) max_proxy_discriminator_len
      then out
      else prefix ++ b'-' ∷ take proxy_hash_suffix_len (sha256_hex raw)

  -- `FRPProxyName`
  unfoldable pub frp_proxy_name : Bytes → Bytes → Bytes
  unfolding normalize_proxy_discriminator
  frp_proxy_name route_id discriminator =
      let d = normalize_proxy_discriminator discriminator in
      if is_empty d then route_id else route_id ++ b'-' ∷ d

-- `strconv.FormatUint(n, 36)`: thirteen digits hold a uint64.
digit36 : ℕ → ℕ
digit36 d = if ltb d 10 then b'0' + d else b'a' + (d - 10)

digits36 : ℕ → ℕ → Bytes → Bytes
unfolding digit36
digits36 zero n rest = rest
digits36 (suc fuel) n rest =
    let more = digits36 fuel (n / 36) (digit36 (n % 36) ∷ rest) in
    if ltb n 36 then digit36 n ∷ rest else more

unfoldable pub format_uint36 : ℕ → Bytes
unfolding digits36
format_uint36 n = digits36 13 n []
