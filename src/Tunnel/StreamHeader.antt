-- ===== src/Tunnel/StreamHeader.antt =====
-- internal/tunnel/stream_header.go. Strings are their bytes, a reader is the bytes that it still
-- has to give, and the writer takes all that is written; `none` is a read error.
pub mod RoundTrip
use pipeops_k8_agent.Prelude.{
  ℕ, ◌%◌, ◌==◌, ltb, ◌≡◌, refl, Option, none, some, List, [], ◌∷◌, ◌++◌, length, take, drop,
  if◌then◌else◌,
}
use pipeops_k8_agent.Prelude.Bytes.{Bytes, u16_mod, put_u16, get_u16}

pub record TunnelStreamHeader : Type 0 where
  pub version : ℕ
  pub protocol : ℕ
  pub service_port : ℕ
  pub service_name : Bytes
  pub service_namespace : Bytes
  pub tunnel_id : Bytes

infixl 5 ◌>>=◌
abbrev pub ◌>>=◌ {ℓ κ} : {A : Type ℓ} {B : Type κ} → Option A → (A → Option B) → Option B
none >>= f = none
some a >>= f = f a

unfoldable pub read_u8 : Bytes → Option (ℕ × Bytes)
read_u8 [] = none
read_u8 (a ∷ rest) = some (a, rest)

unfoldable pub read_u16 : Bytes → Option (ℕ × Bytes)
read_u16 (a ∷ b ∷ rest) = some (get_u16 a b, rest)
read_u16 _ = none

-- The `length` bytes of a string, io.ReadFull.
unfoldable pub read_full : ℕ → Bytes → Option (Bytes × Bytes)
read_full n rest = if ltb (length rest) n then none else some (take n rest, drop n rest)

unfoldable pub read_string : Bytes → Option (Bytes × Bytes)
read_string r = do (n, rest) ← read_u16 r; if n == 0 then some ([], rest) else read_full n rest

-- uint16(len(s)), and the whole of s where that is not 0.
unfoldable pub write_string : Bytes → Bytes
write_string s = put_u16 (length s % u16_mod) (if ltb 0 (length s % u16_mod) then s else [])

-- The three strings at the end of the header.
unfoldable pub read_strings : Bytes → Option (Bytes × Bytes × Bytes × Bytes)
read_strings r = do
  (name, r4) ← read_string r
  (namespace, r5) ← read_string r4
  (id, r6) ← read_string r5
  some (name, namespace, id, r6)

unfoldable pub decode : Bytes → Option (TunnelStreamHeader × Bytes)
decode r = do
  (version, r1) ← read_u8 r
  (protocol, r2) ← read_u8 r1
  (port, r3) ← read_u16 r2
  (name, namespace, id, r6) ← read_strings r3
  some (
    record {
      version = version;
      protocol = protocol;
      service_port = port;
      service_name = name;
      service_namespace = namespace;
      tunnel_id = id;
    },
    r6,
  )

unfoldable pub encode : TunnelStreamHeader → Bytes
encode h =
    h.version
    ∷ h.protocol
    ∷ put_u16 h.service_port (
        write_string h.service_name
        ++ (write_string h.service_namespace ++ write_string h.tunnel_id))

-- Inversion of a chain that gave a value.
pub >>=-eq-some {ℓ κ} :
    {A : Type ℓ} {B : Type κ} (m : Option A) (f : A → Option B) {b : B}
    → (m >>= f) ≡ some b
    → (a : A) × (m ≡ some a) × (f a ≡ some b)
>>=-eq-some none f h = cc
>>=-eq-some (some a) f h = (a, refl, h)
