-- ===== src/OutputCapture/Reported.antt =====
-- What a capture reports is what protocol/v1 lets through as the metadata of an output.
use agent_workstation_gatewa.Base.{
  ℕ, ◌*◌, ◌/◌, ◌%◌, ◌^◌, ◌<◌, ◌≤◌, min, ◌≡◌, refl, ◌∙◌, ap, String, true, false, not, ◌&&◌, ◌||◌,
  pos, lt_ℤ, le_ℤ, eq_ℤ, List, [], ◌∷◌, ok, ltb, ◌==◌, length, All, arith,
}
use Prim.Native.String.{◌++◌ as text_append}
use agent_workstation_gatewa.Text.{Bytes}
use agent_workstation_gatewa.Library.{Library, DigestsTo32, hex_digit, hex, digest_hex}
use agent_workstation_gatewa.Protocol.Types.{max_output_bytes}
use agent_workstation_gatewa.Protocol.Fields.{all_bytes, is_lower_hex, validate_lower_hex}
use agent_workstation_gatewa.Protocol.Accepts.{deny->>, deny-eq-ok}
use agent_workstation_gatewa.Protocol.Report.{validate_output_metadata}
use agent_workstation_gatewa.OutputCapture.{Capture, new, write_all, snapshot}
use agent_workstation_gatewa.OutputCapture.Content.{concat}
use agent_workstation_gatewa.OutputCapture.Report.{report_of, snapshot-write_all}

hex_digit-lower : (n : ℕ) → n < 16 → is_lower_hex (hex_digit n) ≡ true
unfolding is_lower_hex hex_digit
hex_digit-lower n h = ground arith

quotient_lem : (c : ℕ) → c < 256 → c / 16 < 16
quotient_lem c h = omega arith

remainder_lem : (c : ℕ) → c % 16 < 16
remainder_lem c = omega arith

length-hex : (s : Bytes) → length (hex s) ≡ 2 * length s
unfolding hex
length-hex [] = refl
length-hex (c ∷ s) = omega (arith, length-hex s)

hex-lower : (s : Bytes) → All (λ c. c < 256) s → all_bytes is_lower_hex (hex s) ≡ true
unfolding hex all_bytes
hex-lower [] h = refl
hex-lower (c ∷ s) h = simp (
  hex_digit-lower (c / 16) (quotient_lem c (h.0)),
  hex_digit-lower (c % 16) (remainder_lem c),
  hex-lower s (h.1),
)

-- The digest of a report is 64 lowercase hexadecimal digits.
validate_lower_hex-hex :
    (field : String) (s : Bytes)
    → length s ≡ 32
    → All (λ c. c < 256) s
    → validate_lower_hex field (hex s) 64 ≡ ok tt
unfolding validate_lower_hex
validate_lower_hex-hex field s h k =
    let e : length (hex s) ≡ 64 = length-hex s ∙ ap (λ n. 2 * n) h in
    (deny->> (not (length (hex s) == 64)) _ _ _).1
      (rw (e), (deny-eq-ok (not (all_bytes is_lower_hex (hex s))) _ _).1 (rw (hex-lower s k)))

pub limit_lem : (limit : ℕ) {c : Capture} → new (pos limit) ≡ ok c → limit ≤ max_output_bytes
unfolding new
limit_lem limit e = ground arith

total_lem : (n : ℕ) → lt_ℤ (pos n) (pos 0) ≡ false
total_lem n = ground arith

retained_lem :
    (limit n : ℕ)
    → limit ≤ max_output_bytes
    → (lt_ℤ (pos (min limit n)) (pos 0)
        || lt_ℤ (pos max_output_bytes) (pos (min limit n))
        || lt_ℤ (pos n) (pos (min limit n)))
      ≡ false
retained_lem limit n h = ground arith

truncated_lem : (limit n : ℕ) → (ltb limit n && le_ℤ (pos n) (pos (min limit n))) ≡ false
truncated_lem limit n = ground arith

complete_lem : (limit n : ℕ) → (not (ltb limit n) && not (eq_ℤ (pos (min limit n)) (pos n))) ≡ false
complete_lem limit n = ground arith

pub validate_output_metadata-report_of :
    (lib : Library) (field : String) (limit : ℕ) (content : Bytes)
    → DigestsTo32 lib
    → limit ≤ max_output_bytes
    → validate_output_metadata field (report_of lib limit content).metadata ≡ ok tt
unfolding validate_output_metadata digest_hex
validate_output_metadata-report_of lib field limit content digests small =
    let n = length content in
    let digest = digests content in
    rw (
      validate_lower_hex-hex (text_append field ".sha256") (lib.sha256 content) (digest.0)
          (digest.1),
      total_lem n,
      retained_lem limit n small,
      truncated_lem limit n,
      complete_lem limit n,
    )

-- If SHA-256 digests have 32 bytes, then after any writes of less than 2^63 bytes in all the
-- snapshot succeeds and its metadata passes the protocol's check of an output.
pub snapshot-validate_output_metadata :
    (lib : Library) (field : String) (limit : ℕ) {c : Capture} (xs : List Bytes)
    → DigestsTo32 lib
    → new (pos limit) ≡ ok c
    → length (concat xs) < 2 ^ 63
    → (snapshot lib (write_all c xs) ≡ ok (report_of lib limit (concat xs)))
      × (validate_output_metadata field (report_of lib limit (concat xs)).metadata ≡ ok tt)
snapshot-validate_output_metadata lib field limit xs digests e small = (
  snapshot-write_all lib limit xs e small,
  validate_output_metadata-report_of lib field limit (concat xs) digests (limit_lem limit e),
)
