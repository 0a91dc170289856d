-- ===== src/Net.antt =====
-- `std::net`'s addresses. An IP address is its value as a big-endian number, below 2^32 or 2^128.
use pulsate.Prelude.{ℕ, ◌≡◌, ◌↔◌, Bool, true, false, ◌&&◌, ◌==◌, Eq, arith}

pub data IpAddr : Type 0 where
  v4 : ℕ → IpAddr
  v6 : ℕ → IpAddr

pub data SocketAddr : Type 0 where
  on_v4 : ℕ → ℕ → SocketAddr
  on_v6 : ℕ → ℕ → ℕ → ℕ → SocketAddr

-- Address, port, and for IPv6 the flow information and the scope.
abbrev pub addr_eq : SocketAddr → SocketAddr → Bool
addr_eq (on_v4 a p) (on_v4 b q) = a == b && p == q
addr_eq (on_v6 a p f s) (on_v6 b q g t) = (a == b && p == q) && (f == g && s == t)
addr_eq (on_v4 a p) (on_v6 b q g t) = false
addr_eq (on_v6 a p f s) (on_v4 b q) = false

pub addr_eq_iff : (x y : SocketAddr) → (addr_eq x y ≡ true) ↔ (x ≡ y)
addr_eq_iff (on_v4 a p) (on_v4 b q) = (λ h. ground arith, λ h. ground arith)
addr_eq_iff (on_v6 a p f s) (on_v6 b q g t) = (λ h. ground arith, λ h. ground arith)
addr_eq_iff (on_v4 a p) (on_v6 b q g t) = (λ h. cc, λ h. cc)
addr_eq_iff (on_v6 a p f s) (on_v4 b q) = (λ h. cc, λ h. cc)

instance abbrev pub socket_addr_eq : Eq SocketAddr
socket_addr_eq = record { beq = addr_eq; beq_iff = addr_eq_iff }
