-- ===== src/Tcp/Acceptor/Clients.antt =====
-- What a new connection learns of its client.
use budd.Common.{ℕ, ◌≡◌, refl, Option, [], ◌∷◌, ◌++◌, Bytes}
use budd.Outcome.{Outcome}
use budd.Tcp.Acceptor.{accepted, accept}

-- The bytes of a `sockaddr_in`: the family AF_INET, the port in network order, `sin_addr`, and zeros.
abbrev pub sockaddr_in : ℕ → ℕ → Bytes → Bytes
sockaddr_in port_high port_low sin_addr =
    2 ∷ 0 ∷ port_high ∷ port_low ∷ (sin_addr ++ 0 ∷ 0 ∷ 0 ∷ 0 ∷ 0 ∷ 0 ∷ 0 ∷ 0 ∷ [])

-- accept does the same for two clients that have the same port and different addresses: the address that
-- it hands on does not depend on the client's.
pub accept_same_ip :
    {S : Type 0} (inet_ntop : Bytes → Bytes) (close : ℕ → S → S)
    (callback : Option (ℕ → Bytes → S → Outcome S)) (fd port_high port_low : ℕ)
    (sin_addr sin_addr' : Bytes) (s : S)
    → accept inet_ntop close callback (accepted fd (sockaddr_in port_high port_low sin_addr)) s
      ≡ accept inet_ntop close callback (accepted fd (sockaddr_in port_high port_low sin_addr')) s
unfolding accept
accept_same_ip inet_ntop close callback fd port_high port_low sin_addr sin_addr' s = refl
