-- ===== src/Net.antt =====
-- What the program uses of Go's `net` package: `ParseIP` and the address classes.
use qurl_connector.Base.{
  ℕ, zero, suc, ◌+◌, ◌*◌, ◌-◌, ◌/◌, ◌%◌, Bool, true, false, not, ◌&&◌, ◌||◌, Option, none, some,
  List, [], ◌∷◌, ◌++◌, Bytes, ltb, leb, nat_beq, is_empty, if◌then◌else◌, length, any,
}

abbrev is_digit : ℕ → Bool
is_digit c = leb b'0' c && leb c b'9'

-- The loop of `parseIPv4Fields`: the fields so far, the value and the digits of the current one.
ipv4_fields : List ℕ → ℕ → ℕ → Bytes → Option (List ℕ)
ipv4_fields done val digits [] =
    if nat_beq (length done) 3 && not (nat_beq digits 0) then some (done ++ val ∷ []) else none
ipv4_fields done val digits (c ∷ s) =
    let more = ipv4_fields done (val * 10 + (c - b'0')) (digits + 1) s in
    let next = ipv4_fields (done ++ val ∷ []) 0 0 s in
    if is_digit c
    then (if (nat_beq digits 1 && nat_beq val 0) || ltb 255 (val * 10 + (c - b'0'))
        then none
        else more)
    else if nat_beq c b'.'
    then (if nat_beq digits 0 || nat_beq (length done) 3 then none else next)
    else none

hex_value : ℕ → Option ℕ
hex_value c =
    if is_digit c
    then some (c - b'0')
    else if leb b'a' c && leb c b'f'
    then some (c - 87)
    else if leb b'A' c && leb c b'F'
    then some (c - 55)
    else none

-- The leading hexadecimal digits: their value, their number, and the rest. At most four are
-- accepted, and four cannot exceed 65535.
hex_group : ℕ → ℕ → Bytes → Option (ℕ × ℕ × Bytes)
unfolding hex_value
hex_group acc off [] = some (acc, off, [])
hex_group acc off (c ∷ s) = elim (hex_value c) [
  | none ↦ some (acc, off, c ∷ s)
  | some v ↦ if ltb 3 off then none else hex_group (acc * 16 + v) (off + 1) s
]

zeros : ℕ → List ℕ
zeros zero = []
zeros (suc n) = 0 ∷ zeros n

-- The fields before and after `::`; without `::` all of them stand before it.
expand : List ℕ → Option (List ℕ) → Option (List ℕ)
unfolding zeros
expand before none = if nat_beq (length before) 16 then some before else none
expand before (some after) =
    let n = length before + length after in
    if ltb n 16 then some (before ++ (zeros (16 - n) ++ after)) else none

-- The fields so far, on the side of `::` that is being read.
add_fields : List ℕ → Option (List ℕ) → List ℕ → List ℕ × Option (List ℕ)
add_fields before none new = (before ++ new, none)
add_fields before (some after) new = (before, some (after ++ new))

count_fields : List ℕ → Option (List ℕ) → ℕ
count_fields before none = length before
count_fields before (some after) = length before + length after

has_ellipsis : Option (List ℕ) → Bool
has_ellipsis none = false
has_ellipsis (some after) = true

starts : ℕ → Bytes → Bool
starts c [] = false
starts c (x ∷ s) = nat_beq x c

drop_one : Bytes → Bytes
drop_one [] = []
drop_one (x ∷ s) = s

-- The loop of `parseIPv6`, on fuel: each round reads two of the sixteen bytes.
ipv6_loop : ℕ → List ℕ → Option (List ℕ) → Bytes → Option (List ℕ)
unfolding hex_group expand add_fields count_fields has_ellipsis starts drop_one ipv4_fields
ipv6_loop zero before after s = if is_empty s then expand before after else none
ipv6_loop (suc fuel) before after s = elim (hex_group 0 0 s) [
  | none ↦ none
  | some (acc, off, rest) ↦
      let i = count_fields before after in
      let (b', a') = add_fields before after (acc / 256 ∷ acc % 256 ∷ []) in
      let s1 = drop_one rest in
      let again = ipv6_loop fuel b' a' s1 in
      let opened = ipv6_loop fuel b' (some []) (drop_one s1) in
      if leb 16 i
      then (if is_empty s then expand before after else none)
      else if nat_beq off 0
      then none
      else if starts b'.' rest
      then (if (not (has_ellipsis after) && not (nat_beq i 12)) || ltb 16 (i + 4)
          then none
          else elim (ipv4_fields [] 0 0 s) [
            | none ↦ none
            | some quad ↦ let (b4, a4) = add_fields before after quad in expand b4 a4
          ])
      else if is_empty rest
      then expand b' a'
      else if not (starts b':' rest) || is_empty s1
      then none
      else if starts b':' s1
      then (if has_ellipsis after
          then none
          else if is_empty (drop_one s1)
          then expand b' (some [])
          else opened)
      else again
]

ipv6_bytes : Bytes → Option (List ℕ)
unfolding ipv6_loop
ipv6_bytes s =
    let rest = drop_one (drop_one s) in
    if starts b':' s && starts b':' (drop_one s)
    then (if is_empty rest then some (zeros 16) else ipv6_loop 8 [] (some []) rest)
    else ipv6_loop 8 [] none s

-- An IPv4 address in its sixteen-byte form.
mapped : List ℕ → List ℕ
mapped quad = zeros 10 ++ (255 ∷ 255 ∷ quad)

-- `parseIP`: the first `.`, `:` or `%` chooses the parser.
dispatch : Bytes → Bytes → Option (List ℕ)
unfolding ipv4_fields ipv6_bytes mapped
dispatch whole [] = none
dispatch whole (c ∷ s) =
    let rest = dispatch whole s in
    if nat_beq c b'.'
    then elim (ipv4_fields [] 0 0 whole) [ none ↦ none | some quad ↦ some (mapped quad) ]
    else if nat_beq c b':'
    then ipv6_bytes whole
    else if nat_beq c b'%'
    then none
    else rest

-- `net.ParseIP`: the sixteen bytes of the address, or nothing.
unfoldable pub parse_ip : Bytes → Option (List ℕ)
unfolding dispatch
parse_ip s = dispatch s s

-- The text before the first byte `c`, and after it.
cut_byte : ℕ → Bytes → Option (Bytes × Bytes)
cut_byte c [] = none
cut_byte c (x ∷ s) =
    let rest : Option (Bytes × Bytes) = elim (cut_byte c s) [
      | none ↦ none
      | some (before, after) ↦ some (x ∷ before, after)
    ] in
    if nat_beq x c then some ([], s) else rest

has_byte : ℕ → Bytes → Bool
has_byte c s = any (λ x. nat_beq x c) s

-- What follows `]`: a colon that is the last one, and the port, without a bracket.
bracket_port : Bytes → Bytes → Option (Bytes × Bytes)
bracket_port host [] = none
bracket_port host (c ∷ port) =
    if not (nat_beq c b':') || (has_byte b':' port || (has_byte b'[' port || has_byte b']' port))
    then none
    else some (host, port)

-- `net.SplitHostPort`: the host and the port. A colon stands between them; a host with colons is
-- bracketed; no other bracket occurs.
unfoldable pub split_host_port : Bytes → Option (Bytes × Bytes)
unfolding cut_byte has_byte bracket_port
split_host_port [] = none
split_host_port (c ∷ s) =
    if nat_beq c b'['
    then elim (cut_byte b']' s) [
      | none ↦ none
      | some (host, tail) ↦ if has_byte b'[' host then none else bracket_port host tail
    ]
    else elim (cut_byte b':' (c ∷ s)) [
      | none ↦ none
      | some (host, port) ↦
          if has_byte b':' port || (has_byte b'[' (c ∷ s) || has_byte b']' (c ∷ s))
          then none
          else some (host, port)
    ]
