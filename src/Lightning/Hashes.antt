-- ===== src/Lightning/Hashes.antt =====
-- internal/lightning/lightning.go: b64ToHex and hexToB64URL.
use routecat.Prelude.{List, if◌then◌else◌, inl, inr, refl, true, ℕ, ◌≡◌}
use routecat.Text.{Text}
use routecat.Text.Hex.{Bytes, hex_decode, hex_decode-encode, hex_encode}
use routecat.Text.Base64.{base64_decode, base64_encode, raw_url, std}
use routecat.Text.Base64.RoundTrip.{base64_decode-encode}
use routecat.Text.Base64.Foreign.{raw_url_decode-std}

unfoldable pub b64_to_hex : Text → Text
b64_to_hex s =
    let (b, fine) = base64_decode raw_url s in
    let (b', _) = base64_decode std s in hex_encode (if fine then b else b')

unfoldable pub hex_to_b64_url : Text → Text
hex_to_b64_url s = let (b, _) = hex_decode s in base64_encode raw_url b

-- A payment hash that LND writes in standard base64 becomes the hexadecimal of its bytes, whatever
-- they are and however many; and the code's own base64 of it becomes the same again.
pub b64_to_hex-faithful :
    (hash : List ℕ)
    → Bytes hash
    → (b64_to_hex (base64_encode std hash) ≡ hex_encode hash)
      × (b64_to_hex (hex_to_b64_url (hex_encode hash)) ≡ hex_encode hash)
      × (hex_decode (hex_encode hash) ≡ (hash, true))
unfolding b64_to_hex hex_to_b64_url
b64_to_hex-faithful hash h = (
  elim (raw_url_decode-std hash h) [
    | inl fails ↦ rw (fails, base64_decode-encode std hash h) refl
    | inr reads ↦ rw reads refl
  ],
  rw (hex_decode-encode hash h, base64_decode-encode raw_url hash h) refl,
  hex_decode-encode hash h,
)
