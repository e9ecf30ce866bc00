-- ===== src/Tunnel/StreamHeader/RoundTrip.antt =====
-- What Decode makes of the bytes that Encode writes.
use pipeops_k8_agent.Prelude.{
  ℕ, zero, suc, ◌<◌, inl, inr, ◌⊎◌, ◌/◌, ◌%◌, ◌≡◌, refl, ap, ◌∙◌, ◌↔◌, Option, none, some, ◌∷◌,
  ◌++◌, length, take, drop, All, arith, append_assoc, length-append, length-take, take_append,
  drop_append, [],
}
use pipeops_k8_agent.Prelude.Bytes.{Bytes, IsByte, u16_mod, get_u16, get_u16-put}
use pipeops_k8_agent.Tunnel.StreamHeader.{
  TunnelStreamHeader, read_u8, read_u16, read_full, read_string, write_string, read_strings, decode,
  encode, >>=-eq-some,
}

-- The three strings are short enough for their 16-bit lengths.
pub record Fits (h : TunnelStreamHeader) : Type 0 where
  pub name_fits : length h.service_name < u16_mod
  pub namespace_fits : length h.service_namespace < u16_mod
  pub id_fits : length h.tunnel_id < u16_mod

read_u16-put :
    (n : ℕ) (rest : Bytes)
    → n < u16_mod
    → read_u16 (n / 256 % 256 ∷ n % 256 ∷ rest) ≡ some (n, rest)
unfolding read_u16
read_u16-put n rest h = rw (get_u16-put n h)

read_full-append : (s rest : Bytes) → read_full (length s) (s ++ rest) ≡ some (s, rest)
unfolding read_full
read_full-append s rest =
    rw (take_append s rest, drop_append s rest) (ground (arith, length-append s rest))

write_string-fits :
    (s : Bytes) → length s < u16_mod → write_string s ≡ length s / 256 % 256 ∷ length s % 256 ∷ s
unfolding write_string
write_string-fits [] h = refl
write_string-fits (x ∷ s) h =
    let e : length (x ∷ s) % u16_mod ≡ length (x ∷ s) = omega arith in rw e (ground arith)

read-write_string :
    (s rest : Bytes) → length s < u16_mod → read_string (write_string s ++ rest) ≡ some (s, rest)
unfolding read_string
read-write_string [] rest h = rw (write_string-fits [] h, read_u16-put 0 rest (omega arith)) refl
read-write_string (x ∷ s) rest h =
    rw (write_string-fits (x ∷ s) h, read_u16-put (length (x ∷ s)) ((x ∷ s) ++ rest) h)
      (ground (arith, read_full-append (x ∷ s) rest))

All-drop : (n : ℕ) (xs : Bytes) → All IsByte xs → All IsByte (drop n xs)
All-drop zero xs h = h
All-drop (suc n) [] h = h
All-drop (suc n) (x ∷ xs) h = All-drop n xs (h.1)

read_string_result :
    (a b : ℕ) (bytes s rest : Bytes)
    → read_string (a ∷ b ∷ bytes) ≡ some (s, rest)
    → ((s ≡ []) × (rest ≡ bytes))
      ⊎ ((s ≡ take (get_u16 a b) bytes) × (rest ≡ drop (get_u16 a b) bytes))
unfolding read_string read_u16 read_full
read_string_result a b bytes s rest e = ground arith

length-read_string :
    (bytes s rest : Bytes)
    → All IsByte bytes
    → read_string bytes ≡ some (s, rest)
    → (length s < u16_mod) × All IsByte rest
unfolding read_string read_u16
length-read_string (a ∷ b ∷ bytes) s rest h e =
    elim (read_string_result a b bytes s rest (unfold read_string read_u16 in e)) [
      | inl (p, q) ↦ rw (p, q) (omega arith, h.1.1)
      | inr (p, q) ↦
          rw (p, q)
            (omega (arith, length-take (get_u16 a b) bytes), All-drop (get_u16 a b) bytes (h.1.1))
    ]
length-read_string (a ∷ []) s rest h e = cc
length-read_string [] s rest h e = cc

read_strings-Fits :
    (bytes : Bytes) (h : TunnelStreamHeader) (rest : Bytes)
    → All IsByte bytes
    → read_strings bytes ≡ some (h.service_name, h.service_namespace, h.tunnel_id, rest)
    → Fits h
unfolding read_strings
read_strings-Fits bytes h rest all e =
    let (a1, e1, f1) = >>=-eq-some (read_string bytes) _ e in
    let (a2, e2, f2) = >>=-eq-some (read_string a1.1) _ f1 in
    let (a3, e3, f3) = >>=-eq-some (read_string a2.1) _ f2 in
    let (l1, b1) = length-read_string bytes a1.0 a1.1 all e1 in
    let (l2, b2) = length-read_string a1.1 a2.0 a2.1 b1 e2 in
    let (l3, b3) = length-read_string a2.1 a3.0 a3.1 b2 e3 in
    let n1 : a1.0 ≡ h.service_name = cc in
    let n2 : a2.0 ≡ h.service_namespace = cc in
    let n3 : a3.0 ≡ h.tunnel_id = cc in
    record { name_fits = rw n1 at l1; namespace_fits = rw n2 at l2; id_fits = rw n3 at l3 }

read_strings-append :
    (h : TunnelStreamHeader) (rest : Bytes)
    → Fits h
    → read_strings (
        (write_string h.service_name
          ++ (write_string h.service_namespace ++ write_string h.tunnel_id))
        ++ rest)
      ≡ some (h.service_name, h.service_namespace, h.tunnel_id, rest)
unfolding read_strings
read_strings-append h rest w =
    rw
      (
        append_assoc (write_string h.service_name) _ rest,
        append_assoc (write_string h.service_namespace) (write_string h.tunnel_id) rest,
        read-write_string h.service_name _ w.name_fits,
        read-write_string h.service_namespace _ w.namespace_fits,
        read-write_string h.tunnel_id rest w.id_fits,
      )
      refl

abbrev strings_of : Option (TunnelStreamHeader × Bytes) → Option (Bytes × Bytes × Bytes × Bytes)
strings_of none = none
strings_of (some (h, rest)) = some (h.service_name, h.service_namespace, h.tunnel_id, rest)

-- A header of bytes with a 16-bit port comes back from Encode and Decode, with the bytes that
-- follow it in the stream, exactly when its strings fit their 16-bit lengths.
pub decode-encode_iff :
    (h : TunnelStreamHeader) (rest : Bytes)
    → h.service_port < u16_mod
    → All IsByte (encode h ++ rest)
    → (decode (encode h ++ rest) ≡ some (h, rest)) ↔ Fits h
unfolding decode encode read_u8
decode-encode_iff h rest port bytes = rw (read_u16-put h.service_port _ port) (
  λ e.
      let (a, ea, fa) = >>=-eq-some (read_strings _) _ e in
      read_strings-Fits _ h rest (bytes.1.1.1.1) (ea ∙ ap strings_of fa),
  λ w. rw (read_strings-append h rest w) refl,
)
