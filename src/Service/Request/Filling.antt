-- ===== src/Service/Request/Filling.antt =====
-- The request buffer through `TCPRead` and `TLSRead`.
use Prim.{Unit}
use mathlib.Core.List.{map}
use tidbits.Prelude.{
  ℕ, ◌+◌, ◌-◌, ◌≤◌, ◌<◌, ◌≡◌, refl, sym, ◌∙◌, of_some, inl, inr, ltb, some, List, [], ◌∷◌, ◌++◌,
  length, take, arith, Bool-cases, append_assoc, append-nil, length-append, length-take,
}
use tidbits.Service.Io.{Return, done, back, close, error}
use tidbits.Service.Session.{chunk_len}
use tidbits.Service.Session.Delivery.{Prefix}
use tidbits.Service.Request.{
  Input, got, ended, nothing, signalled, broken, unexpected, Reading, extended, tcp_read, tls_read,
}

-- There is room for more, unless the connection ends.
abbrev pub HasRoom : Reading → Type 0
HasRoom r = elim r.ret [
  | done ↦ length r.bytes < r.size
  | back ↦ length r.bytes < r.size
  | close ↦ Unit
  | error ↦ Unit
]

-- The bytes read so far are kept, there is room for a '\0', the size is bounded, and where the caller
-- comes back there is room for more.
pub record IsFilled (most : ℕ) (bytes : List ℕ) (r : Reading) : Type 0 where
  pub kept : Prefix bytes r.bytes
  pub fits : length r.bytes ≤ r.size
  pub bounded : r.size < most + chunk_len
  pub room : HasRoom r

unmoved-IsFilled :
    (most : ℕ) (bytes : List ℕ) (size : ℕ) (ret : Return)
    → length bytes < size
    → size < most + chunk_len
    → IsFilled most bytes (record { ret = ret; bytes = bytes; size = size })
unmoved-IsFilled most bytes size ret h b = record {
  kept = ([], append-nil bytes);
  fits = omega arith;
  bounded = b;
  room = at ret;
}
  where
    at : (ret : Return) → HasRoom (record { ret = ret; bytes = bytes; size = size })
    at done = h
    at back = h
    at close = record {}
    at error = record {}

length-extended :
    (size : ℕ) (bytes xs : List ℕ) → length bytes < size → length (extended size bytes xs) ≤ size
length-extended size bytes xs h = omega (
  arith,
  length-append bytes (take (size - length bytes) xs),
  length-take (size - length bytes) xs,
)

further-IsFilled :
    (most size : ℕ) (bytes xs : List ℕ) (r : Reading)
    → IsFilled most (extended size bytes xs) r
    → IsFilled most bytes r
further-IsFilled most size bytes xs r k = record {
  kept = (
    take (size - length bytes) xs ++ k.kept.0,
    sym (append_assoc bytes (take (size - length bytes) xs) k.kept.0) ∙ k.kept.1,
  );
  fits = k.fits;
  bounded = k.bounded;
  room = k.room;
}

-- What `TCPRead` returns, however the bytes come: the bytes that were in the buffer stay, the bytes
-- fit, the buffer stays below the greatest length and a chunk, and at 2 there is room for more.
pub tcp_read-IsFilled :
    (most : ℕ) (ins : List Input) (bytes : List ℕ) (size : ℕ) (r : Reading)
    → length bytes < size
    → size < most + chunk_len
    → tcp_read most ins bytes size ≡ some r
    → IsFilled most bytes r
unfolding tcp_read
tcp_read-IsFilled most [] bytes size r h b e = absurd (ground arith)
tcp_read-IsFilled most (got x xs ∷ ins) bytes size r h b e =
    further-IsFilled most size bytes (x ∷ xs) r (elim (Bool-cases (ltb (length bytes') size)) [
      | inl y ↦
          of_some (IsFilled most bytes') (record { ret = back; bytes = bytes'; size = size }) r
            (ground arith) (unmoved-IsFilled most bytes' size back (ground arith) b)
      | inr n ↦ elim (Bool-cases (ltb size most)) [
        | inl y ↦
            tcp_read-IsFilled most ins bytes' (size + chunk_len) r
              (omega (arith, length-extended size bytes (x ∷ xs) h)) (ground arith) (ground arith)
        | inr n' ↦
            of_some (IsFilled most bytes') (record { ret = close; bytes = bytes'; size = size }) r
              (ground arith)
              (record {
                kept = ([], append-nil bytes');
                fits = length-extended size bytes (x ∷ xs) h;
                bounded = b;
                room = record {};
              })
      ]
    ])
  where
    bytes' : List ℕ
    bytes' = extended size bytes (x ∷ xs)
tcp_read-IsFilled most (ended ∷ ins) bytes size r h b e =
    of_some (IsFilled most bytes) _ r e (unmoved-IsFilled most bytes size close h b)
tcp_read-IsFilled most (nothing ∷ ins) bytes size r h b e =
    of_some (IsFilled most bytes) _ r e (unmoved-IsFilled most bytes size back h b)
tcp_read-IsFilled most (signalled ∷ ins) bytes size r h b e =
    tcp_read-IsFilled most ins bytes size r h b e
tcp_read-IsFilled most (broken ∷ ins) bytes size r h b e =
    of_some (IsFilled most bytes) _ r e (unmoved-IsFilled most bytes size close h b)
tcp_read-IsFilled most (unexpected ∷ ins) bytes size r h b e = absurd (ground arith)

-- A connection that is reset in place of an unexpected error.
abbrev pub softened : Input → Input
softened (got x xs) = got x xs
softened ended = ended
softened nothing = nothing
softened signalled = signalled
softened broken = broken
softened unexpected = broken

-- `TLSRead` does what `TCPRead` does where connections are reset in place of the unexpected errors, at
-- which that function ends the process.
pub tls_read-eq-tcp_read :
    (most : ℕ) (ins : List Input) (bytes : List ℕ) (size : ℕ)
    → tls_read most ins bytes size ≡ tcp_read most (map softened ins) bytes size
unfolding tcp_read tls_read
tls_read-eq-tcp_read most [] bytes size = refl
tls_read-eq-tcp_read most (got x xs ∷ ins) bytes size =
    let bytes' = extended size bytes (x ∷ xs) in
    let ih = tls_read-eq-tcp_read most ins bytes' (size + chunk_len) in ground arith
tls_read-eq-tcp_read most (ended ∷ ins) bytes size = refl
tls_read-eq-tcp_read most (nothing ∷ ins) bytes size = refl
tls_read-eq-tcp_read most (signalled ∷ ins) bytes size = tls_read-eq-tcp_read most ins bytes size
tls_read-eq-tcp_read most (broken ∷ ins) bytes size = refl
tls_read-eq-tcp_read most (unexpected ∷ ins) bytes size = refl

pub tls_read-IsFilled :
    (most : ℕ) (ins : List Input) (bytes : List ℕ) (size : ℕ) (r : Reading)
    → length bytes < size
    → size < most + chunk_len
    → tls_read most ins bytes size ≡ some r
    → IsFilled most bytes r
tls_read-IsFilled most ins bytes size r h b e =
    tcp_read-IsFilled most (map softened ins) bytes size r h b
      (sym (tls_read-eq-tcp_read most ins bytes size) ∙ e)
