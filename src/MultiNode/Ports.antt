-- ===== src/MultiNode/Ports.antt =====
-- The ports of the nodes: no two listeners of a testnet share one.
use base_protocol_system.Base.{
  ℕ, zero, suc, ◌-◌, ◌/◌, ◌%◌, ltb, if◌then◌else◌, ap₂, ◌+◌, ◌*◌, ◌<◌, ◌≡◌, refl, sym, ◌∙◌, ℤ, pos,
  ◌-ℤ◌, ◌<ℤ◌, pos_part, arith, ap,
}
use base_protocol_system.MultiNode.Args.{rpc_port}
use base_protocol_system.MultiNode.Nodes.{p2p_port, grpc_port, api_port}
use base_protocol_system.MultiNode.Genesis.{proxy_port, prometheus_port}

-- What listens at a port.
pub data Listener : Type 0 where
  p2p rpc proxy prometheus grpc api : Listener

abbrev pub port : Listener → ℕ → ℤ
port p2p i = p2p_port i
port rpc i = rpc_port i
port proxy i = proxy_port i
port prometheus i = prometheus_port i
port grpc i = grpc_port i
port api i = api_port i

-- Which listener a port belongs to: those that go down by three are told apart by the remainder.
abbrev of_three : ℕ → Listener
of_three zero = proxy
of_three (suc zero) = p2p
of_three (suc (suc n)) = rpc

abbrev listener_at : ℕ → Listener
listener_at p =
    if ltb p 1318
    then api
    else if ltb p 9091
    then grpc
    else if ltb 26659 p
    then prometheus
    else of_three (p % 3)

abbrev node_at : Listener → ℕ → ℕ
node_at p2p p = (26656 - p) / 3
node_at rpc p = (26657 - p) / 3
node_at proxy p = (26658 - p) / 3
node_at prometheus p = p - 26660
node_at grpc p = (9090 - p) / 2
node_at api p = 1317 - p

-- The port as a number, of a node below 1317.
abbrev number : Listener → ℕ → ℕ
number p2p i = 26656 - 3 * i
number rpc i = 26657 - 3 * i
number proxy i = 26658 - 3 * i
number prometheus i = 26660 + i
number grpc i = 9090 - 2 * i
number api i = 1317 - i

port_at : (l : Listener) (i : ℕ) → i < 1317 → port l i ≡ pos (number l i)
unfolding ◌-ℤ◌
port_at p2p i h = ground arith
port_at rpc i h = ground arith
port_at proxy i h = ground arith
port_at prometheus i h = refl
port_at grpc i h = ground arith
port_at api i h = ground arith

listener-number : (l : Listener) (i : ℕ) → i < 1317 → listener_at (number l i) ≡ l
listener-number p2p i h = ground arith
listener-number rpc i h = ground arith
listener-number proxy i h = ground arith
listener-number prometheus i h = ground arith
listener-number grpc i h = ground arith
listener-number api i h = ground arith

node-number : (l : Listener) (i : ℕ) → i < 1317 → node_at l (number l i) ≡ i
node-number p2p i h = omega arith
node-number rpc i h = omega arith
node-number proxy i h = omega arith
node-number prometheus i h = omega arith
node-number grpc i h = omega arith
node-number api i h = omega arith

number-pos : (l : Listener) (i : ℕ) → i < 1317 → 0 < number l i
number-pos p2p i h = omega arith
number-pos rpc i h = omega arith
number-pos proxy i h = omega arith
number-pos prometheus i h = omega arith
number-pos grpc i h = omega arith
number-pos api i h = omega arith

-- In a testnet of at most 1317 nodes, the default ports are positive, and no two are the same: the
-- port tells what listens at it, and at which node.
pub ports_apart :
    (a b : Listener) (i j : ℕ)
    → i < 1317
    → j < 1317
    → (pos 0 <ℤ port a i) × (port a i ≡ port b j → (a ≡ b) × (i ≡ j))
ports_apart a b i j h g = (
  (let p = number-pos a i h in rw (port_at a i h) (omega arith)),
  λ e.
      let same : number a i ≡ number b j = ap pos_part (sym (port_at a i h) ∙ e ∙ port_at b j g) in
      let l : a ≡ b = sym (listener-number a i h) ∙ ap listener_at same ∙ listener-number b j g in
      (l, sym (node-number a i h) ∙ ap₂ node_at l same ∙ node-number b j g),
)
