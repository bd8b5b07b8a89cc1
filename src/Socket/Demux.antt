-- ===== src/Socket/Demux.antt =====
-- How `demux_protocol` tells HTTP/2 from HTTP/1.1.
use celeritas.Prelude.{
  ◌≡◌, ◌≢◌, ◌⊎◌, inl, inr, refl, ap, subst, ◌∙◌, [], ◌∷◌, ◌++◌, take, drop, length, Bytes,
  if◌then◌else◌, arith, Bool-cases,
}
use celeritas.Text.{codes, equal, equal_iff}
use celeritas.Types.{Conn, proto_http11, proto_http2}
use celeritas.Socket.{peeked, preface, demux_protocol}

take-append_exact : (a b : Bytes) → take (length a) (a ++ b) ≡ a
take-append_exact [] b = refl
take-append_exact (x ∷ a) b = ap (◌∷◌ x) (take-append_exact a b)

module _ (memory : Bytes) (conn : Conn) where
  demux_protocol-compares :
      (bs : Bytes)
      → length bs ≡ 24
      → demux_protocol memory (peeked bs) conn ≡ (
          if equal bs preface
          then record conn { protocol = proto_http2 }
          else record conn { protocol = proto_http11 })
  unfolding demux_protocol
  demux_protocol-compares bs h =
      let e : take 24 (bs ++ drop (length bs) memory) ≡ bs =
        subst (λ n. take n (bs ++ drop (length bs) memory) ≡ bs) h
          (take-append_exact bs (drop (length bs) memory)) in
      rw (e, demux_protocol) refl

-- Of a connection that has 24 bytes to show, `demux_protocol` says HTTP/2 if they are the preface and
-- HTTP/1.1 if they are not, and changes nothing else, whatever its buffer held before.
pub demux_protocol-preface :
    (memory : Bytes) (conn : Conn) (bs : Bytes)
    → length bs ≡ 24
    → ((bs ≡ preface)
        × (demux_protocol memory (peeked bs) conn ≡ record conn { protocol = proto_http2 }))
      ⊎ ((bs ≢ preface)
          × (demux_protocol memory (peeked bs) conn ≡ record conn { protocol = proto_http11 }))
demux_protocol-preface memory conn bs h =
    let c = demux_protocol-compares memory conn bs h in
    elim (Bool-cases (equal bs preface)) [
      | inl t ↦ inl (
        (equal_iff bs preface).0 t,
        c
            ∙ ap
                (λ b.
                  if b
                  then record conn { protocol = proto_http2 }
                  else record conn { protocol = proto_http11 })
                t,
      )
      | inr t ↦ inr (
        (λ e. ground (arith, (equal_iff bs preface).1 e)),
        c
            ∙ ap
                (λ b.
                  if b
                  then record conn { protocol = proto_http2 }
                  else record conn { protocol = proto_http11 })
                t,
      )
    ]

-- Of fewer bytes, those that the buffer held before are compared too: a beginning of the preface that
-- meets its end in the buffer is taken for HTTP/2.
pub demux_protocol-stale :
    (memory : Bytes) (conn : Conn) (bs : Bytes)
    → bs ++ drop (length bs) memory ≡ preface
    → (demux_protocol memory (peeked bs) conn).protocol ≡ proto_http2
unfolding demux_protocol codes equal
demux_protocol-stale memory conn bs h = rw (h, demux_protocol) refl
