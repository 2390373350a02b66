-- ===== src/Secp/Ecdsa/Safety.antt =====
-- Where the parser of signatures reads.
use tinychain.Base.{
  ℕ, zero, suc, ◌+◌, ◌≤◌, ◌<◌, ◌≡◌, ◌≢◌, List, [], ◌∷◌, length, Bool, true, false, not, ◌&&◌, ◌||◌,
  arith, ltb, if◌then◌else◌, bit_and, ◌==◌, refl, bit_or, u64, ◌<<<◌,
}
use tinychain.Base.{◌*◌, ◌/◌, ◌%◌, ◌^◌, ap, ◌∙◌}
use tinychain.Base.Integers.{ℤ, pos, negsuc}
use tinychain.Base.Bits.{bit_and-le}
use tinychain.Base.Bits.Mask.{bit_and_mask}
use tinychain.Secp.Ecdsa.{
  Parsed, then_parse, peek, read_octets, read_long, der_read_len, has_padding, skip_zeros, split,
  parse_content, parse_length, der_parse_integer, parse_pair, sig_parse,
}

-- The elements of an array of `unsigned char`.
unfoldable pub AreBytes : List ℕ → Type 0
AreBytes [] = Unit
AreBytes (b ∷ s) = (b < 256) × AreBytes s

-- No overread, and `P` of the result if there is one.
data InBounds {ℓ} {A : Type ℓ} (P : A → Type 0) : Parsed A → Type ℓ where
  found : {a : A} → P a → InBounds P (Parsed.parsed a)
  refused : InBounds P Parsed.rejected

then_parse-InBounds {ℓ ℓ'} :
    {A : Type ℓ} {B : Type ℓ'} {P : A → Type 0} {Q : B → Type 0} {m : Parsed A} {f : A → Parsed B}
    → InBounds P m
    → ((a : A) → P a → InBounds Q (f a))
    → InBounds Q (then_parse m f)
unfolding then_parse
then_parse-InBounds (InBounds.found h) k = k _ h
then_parse-InBounds InBounds.refused k = InBounds.refused

-- A guard that rejects.
unless-InBounds {ℓ} :
    {A : Type ℓ} {P : A → Type 0} (b : Bool) {m : Parsed A}
    → (b ≡ false → InBounds P m)
    → InBounds P (if b then Parsed.rejected else m)
unless-InBounds true h = InBounds.refused
unless-InBounds false h = h refl

if-InBounds {ℓ} :
    {A : Type ℓ} {P : A → Type 0} (b : Bool) {m n : Parsed A}
    → (b ≡ true → InBounds P m)
    → (b ≡ false → InBounds P n)
    → InBounds P (if b then m else n)
if-InBounds true h k = h refl
if-InBounds false h k = k refl

peek-InBounds : (s : List ℕ) → 0 < length s → InBounds (λ b. Unit) (peek s)
unfolding peek
peek-InBounds [] h = absurd (omega arith)
peek-InBounds (b ∷ s) h = InBounds.found tt

read_octets-InBounds :
    (n ret : ℕ) (s : List ℕ)
    → n ≤ length s
    → AreBytes s
    → InBounds (λ r. AreBytes r.1) (read_octets n ret s)
unfolding read_octets AreBytes
read_octets-InBounds zero ret s h k = InBounds.found k
read_octets-InBounds (suc n) ret [] h k = absurd (omega arith)
read_octets-InBounds (suc n) ret (b ∷ s) h k =
    let next = bit_or (u64 (ret <<< 8)) b in
    unless-InBounds (ltb (suc (length s)) (u64 (next + suc n)))
      (λ l. read_octets-InBounds n next s (omega arith) k.1)

-- The number of length bytes is not 0.
masked_positive :
    (b : ℕ) → b < 256 → ((bit_and b 0x80 == 0) ≡ false) → ((b == 0x80) ≡ false) → 0 < bit_and b 0x7F
masked_positive b lt h k =
    let split : b ≡ b / 2 ^ 7 * 2 ^ 7 + b % 2 ^ 7 = omega arith in
    let low : bit_and b 0x7F ≡ b % 2 ^ 7 =
      ap (λ t. bit_and t 0x7F) split ∙ bit_and_mask 7 (b / 2 ^ 7) (b % 2 ^ 7) (omega arith) in
    ground (arith, low, bit_and-le b 0x80)

skip_zeros-InBounds :
    (n : ℕ) (s : List ℕ)
    → n ≤ length s
    → AreBytes s
    → InBounds (λ r. (r.0 ≤ length r.1) × AreBytes r.1) (skip_zeros n s)
unfolding skip_zeros AreBytes
skip_zeros-InBounds zero s h k = InBounds.found (omega arith, k)
skip_zeros-InBounds (suc n) [] h k = absurd (omega arith)
skip_zeros-InBounds (suc n) (b ∷ s) h k =
    if-InBounds (b == 0) (λ l. skip_zeros-InBounds n s (omega arith) k.1)
      (λ l. InBounds.found (h, k))

split-InBounds :
    (n : ℕ) (s : List ℕ) → n ≤ length s → AreBytes s → InBounds (λ r. AreBytes r.1) (split n s)
unfolding split AreBytes
split-InBounds zero s h k = InBounds.found k
split-InBounds (suc n) [] h k = absurd (omega arith)
split-InBounds (suc n) (b ∷ s) h k =
    then_parse-InBounds (split-InBounds n s (omega arith) k.1) (λ r l. InBounds.found l)

has_padding-InBounds :
    (x high rlen : ℕ) (s : List ℕ)
    → 0 < rlen
    → rlen ≤ length s
    → InBounds (λ b. Unit) (has_padding x high rlen s)
unfolding has_padding
has_padding-InBounds x high rlen [] h k = absurd (omega arith)
has_padding-InBounds x high rlen (b ∷ s) h k =
    if-InBounds ((b == x) && ltb 1 rlen)
      (λ e. then_parse-InBounds (peek-InBounds s (ground arith)) (λ next l. InBounds.found tt))
      (λ e. InBounds.found tt)

parse_content-InBounds :
    (rlen : ℕ) (s : List ℕ)
    → 0 < rlen
    → rlen ≤ length s
    → AreBytes s
    → InBounds (λ r. AreBytes r.1) (parse_content rlen s)
unfolding parse_content
parse_content-InBounds rlen s h k bs =
    then_parse-InBounds (has_padding-InBounds 0 0 rlen s h k) λ zero_padded a.
      unless-InBounds zero_padded λ p.
        then_parse-InBounds (has_padding-InBounds 0xFF 0x80 rlen s h k) λ one_padded c.
          unless-InBounds one_padded λ q.
            then_parse-InBounds (peek-InBounds s (omega arith)) λ first d.
              then_parse-InBounds (skip_zeros-InBounds rlen s k bs) λ left e.
                then_parse-InBounds (split-InBounds left.0 left.1 e.0 e.1) (λ r f. InBounds.found f)

read_long-InBounds :
    (lenleft : ℕ) (s : List ℕ)
    → 0 < lenleft
    → AreBytes s
    → InBounds (λ r. AreBytes r.1) (read_long lenleft s)
unfolding read_long
read_long-InBounds lenleft s h bs = unless-InBounds (ltb (length s) lenleft) λ k.
    then_parse-InBounds (peek-InBounds s (ground arith)) λ first a.
      unless-InBounds ((first == 0) || ltb 8 lenleft) λ c.
        then_parse-InBounds (read_octets-InBounds lenleft 0 s (ground arith) bs)
          λ r d. unless-InBounds (ltb r.0 128) (λ e. InBounds.found d)

der_read_len-InBounds : (s : List ℕ) → AreBytes s → InBounds (λ r. AreBytes r.1) (der_read_len s)
unfolding der_read_len AreBytes
der_read_len-InBounds [] bs = InBounds.refused
der_read_len-InBounds (b ∷ s) bs = unless-InBounds (b == 0xFF) λ h.
    if-InBounds (bit_and b 0x80 == 0) (λ k. InBounds.found bs.1)
      λ k. unless-InBounds (b == 0x80) λ l.
        then_parse-InBounds
          (read_long-InBounds (bit_and b 0x7F) s (masked_positive b bs.0 k l) bs.1)
          (λ r a. InBounds.found a)

parse_length-InBounds :
    (rlen : ℤ) (s : List ℕ) → AreBytes s → InBounds (λ r. AreBytes r.1) (parse_length rlen s)
unfolding parse_length
parse_length-InBounds (pos rlen) s bs =
    unless-InBounds ((rlen == 0) || ltb (length s) rlen)
      λ e. parse_content-InBounds rlen s (ground arith) (ground arith) bs
parse_length-InBounds (negsuc n) s bs = InBounds.refused

der_parse_integer-InBounds :
    (s : List ℕ) → AreBytes s → InBounds (λ r. AreBytes r.1) (der_parse_integer s)
unfolding der_parse_integer AreBytes
der_parse_integer-InBounds [] bs = InBounds.refused
der_parse_integer-InBounds (tag ∷ s) bs =
    unless-InBounds (not (tag == 0x02)) λ h.
      then_parse-InBounds (der_read_len-InBounds s bs.1) (λ l k. parse_length-InBounds l.0 l.1 k)

parse_pair-InBounds :
    (rlen : ℤ) (s : List ℕ) → AreBytes s → InBounds (λ r. Unit) (parse_pair rlen s)
unfolding parse_pair
parse_pair-InBounds (negsuc n) s bs = InBounds.refused
parse_pair-InBounds (pos rlen) s bs = unless-InBounds (not (rlen == length s)) λ e.
    then_parse-InBounds (der_parse_integer-InBounds s bs) λ r a.
      then_parse-InBounds (der_parse_integer-InBounds r.1 a)
        λ t c. if-InBounds (length t.1 == 0) (λ d. InBounds.found tt) (λ d. InBounds.refused)

sig_parse-InBounds : (s : List ℕ) → AreBytes s → InBounds (λ r. Unit) (sig_parse s)
unfolding sig_parse AreBytes
sig_parse-InBounds [] bs = InBounds.refused
sig_parse-InBounds (tag ∷ s) bs =
    unless-InBounds (not (tag == 0x30))
      λ h. then_parse-InBounds (der_read_len-InBounds s bs.1) (λ l k. parse_pair-InBounds l.0 l.1 k)

not_overread {ℓ} : {A : Type ℓ} {P : A → Type 0} {m : Parsed A} → InBounds P m → m ≢ Parsed.overread
not_overread (InBounds.found h) e = cc
not_overread InBounds.refused e = cc

-- For any array of bytes, the parser of a signature reads no byte past the end of the array.
pub sig_parse_in_bounds : (s : List ℕ) → AreBytes s → sig_parse s ≢ Parsed.overread
sig_parse_in_bounds s h = not_overread (sig_parse-InBounds s h)
