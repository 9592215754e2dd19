-- ===== src/CentralCp/Enabled.antt =====
-- The ports of a switch, brought up after the start (ctrl_central/cp.go).
use horus_controller.Ports.{set_dev_port}
use horus_controller.Asic.{AsicRegistry, PortRef, Asic, Port}
use horus_controller.CentralCp.{
  call_client, Bfrt, Client, client_of, Cp, bfrt, PortOp, enable_port, PortState, init_asic_ports,
  init_asics, init_ports, bring_port_up, port_behind,
}
use mathlib.Core.Path.{subst}
use horus_controller.Prelude.Words.{u32}
use horus_controller.GoMap.{load-store, store, load-store_self, GoMap, load}
use horus_controller.Prelude.{
  nat_beq, if◌then◌else◌, ◌∙◌, Option, deref, >>=-returned, returned_inj, ap, none, inl, inr,
  Bool-cases, ◌==◌, ◌≡◌, refl, ◌<◌, ◌++◌, ℕ, String, true, some, List, [], ◌∷◌, All, arith,
  returned, text_key,
}

-- The client of a switch knows the port, and device ports are uint32.
abbrev pub IsKnown : Bfrt → Client → Port → Type 0
IsKnown b c p =
    (dev : ℕ) × (b.get_dev_port c p.spec.cage p.spec.lane ≡ some dev) × (dev < 4294967296)

abbrev pub AcceptsEnabling : Bfrt → Type 0
AcceptsEnabling b =
    (c : Client) (dev : ℕ) (speed fec an : String) (ops : List PortOp)
    → b.accepts (enable_port c dev speed fec an) ops ≡ true

-- Every port has the device port that the client of its switch knows.
abbrev HasDevPorts : Bfrt → Client → GoMap String Port → GoMap String Port → Type 0
HasDevPorts b c ps ps' =
    (k : String) (p : Port)
    → load k ps ≡ some p
    → (known : IsKnown b c p) × (load k ps' ≡ some (set_dev_port known.0 p))

init_asic_ports_lem :
    (b : Bfrt) (c : Client) (ps : GoMap String Port) (ops : List PortOp)
    → AcceptsEnabling b
    → All (λ e. IsKnown b c e.1) ps
    → (ps' : GoMap String Port) × (ops' : List PortOp) × (init_asic_ports b c ps ops
        ≡ returned (ps', ops'))
      × HasDevPorts b c ps ps'
unfolding init_asic_ports load
init_asic_ports_lem b c [] ops accepts known = ([], ops, refl, λ k p h. absurd (ground (arith, h)))
init_asic_ports_lem b c ((j, q) ∷ ps) ops accepts known =
    let dev = known.0.0 in
    let named = known.0.1 in
    let op = enable_port c dev q.config.speed q.config.fec q.config.an in
    let (ps', ops', ran, has) = init_asic_ports_lem b c ps (ops ++ op ∷ []) accepts known.1 in
    let yes = accepts c dev q.config.speed q.config.fec q.config.an ops in
    (
      (j, set_dev_port dev q) ∷ ps',
      ops',
      rw (named, yes, ran) refl,
      λ k p h. elim (Bool-cases (j == k)) [
        | inl same ↦
            let e : q ≡ p = ground (arith, h, same) in
            subst
              (λ x.
                (one : IsKnown b c x) × (load k ((j, set_dev_port dev q) ∷ ps')
                  ≡ some (set_dev_port one.0 x)))
              e (known.0, ground (arith, same))
        | inr other ↦
            let (one, at) = has k p (ground (arith, h, other)) in (one, ground (arith, at, other))
      ],
    )

-- The map holds one ASIC under each key, its own ID.
abbrev pub IsKeyed : GoMap String Asic → GoMap String Asic → Type 0
IsKeyed m xs = All (λ e. (e.1.id ≡ e.0) × (load e.0 m ≡ some e.1)) xs

abbrev pub AreKnown : Bfrt → GoMap String Asic → Type 0
AreKnown b xs = All (λ e. All (λ p. IsKnown b (client_of e.1) p.1) e.1.port_registry.port_map) xs

-- The ASIC of a key has its client, and its ports have their device ports.
record IsInitialised (b : Bfrt) (k : String) (asic : Asic) (xs : GoMap String Asic)
    (clients : GoMap String Client) : Type 0 where
  ports : GoMap String Port
  found :
      load k xs
      ≡ some (record asic { port_registry = record asic.port_registry { port_map = ports } })
  has_ports : HasDevPorts b (client_of asic) asic.port_registry.port_map ports
  has_client : load asic.id clients ≡ some (client_of asic)

-- A client that is that of its ASIC stays so.
abbrev KeepsClients : GoMap String Asic → GoMap String Client → GoMap String Client → Type 0
KeepsClients m clients clients' =
    (k : String) (asic : Asic)
    → load k m ≡ some asic
    → load k clients ≡ some (client_of asic)
    → load k clients' ≡ some (client_of asic)

init_asics_lem :
    (b : Bfrt) (m xs : GoMap String Asic) (clients : GoMap String Client) (ops : List PortOp)
    → AcceptsEnabling b
    → AreKnown b xs
    → IsKeyed m xs
    → (xs' : GoMap String Asic) × (clients' : GoMap String Client) × (ops' : List PortOp)
      × (init_asics b xs clients ops ≡ returned (xs', clients', ops'))
      × ((k : String) (asic : Asic) → load k xs ≡ some asic → IsInitialised b k asic xs' clients')
      × KeepsClients m clients clients'
unfolding init_asics load
init_asics_lem b m [] clients ops accepts known keyed =
    ([], clients, ops, refl, λ k asic h. absurd (ground (arith, h)), λ k asic h at. at)
init_asics_lem b m ((j, x) ∷ xs) clients ops accepts known keyed =
    let c = client_of x in
    let (ps', ops1, ran, has) =
      init_asic_ports_lem b c x.port_registry.port_map ops accepts known.0 in
    let (xs', clients', ops', ran', done, keeps) =
      init_asics_lem b m xs (store x.id c clients) ops1 accepts known.1 keyed.1 in
    let x' : Asic = record x { port_registry = record x.port_registry { port_map = ps' } } in
    let stored : load x.id clients' ≡ some c =
      keeps x.id x (ground (arith, keyed)) (load-store_self x.id c clients) in
    (
      (j, x') ∷ xs',
      clients',
      ops',
      rw (ran, ran') refl,
      λ k asic h. elim (Bool-cases (j == k)) [
        | inl same ↦
            (let e : x ≡ asic = ground (arith, h, same) in
              subst (λ y. IsInitialised b k y ((j, x') ∷ xs') clients') e
                (record {
                  ports = ps';
                  found = ground (arith, same);
                  has_ports = has;
                  has_client = stored;
                }))
        | inr other ↦
            let r = done k asic (ground (arith, h, other)) in
            record {
              ports = r.ports;
              found = ground (arith, r.found, other);
              has_ports = r.has_ports;
              has_client = r.has_client;
            }
      ],
      λ k asic h at.
          keeps k asic h
            (ground (arith, load-store x.id k c clients, text_key.same_iff x.id k, keyed, h, at)),
    )

bring_port_up_lem :
    (b : Bfrt) (name : String) (clients : GoMap String Client) (ref : PortRef) (s : PortState)
    (asic : Asic) (port : Port) (c : Client)
    → port_behind ref s.registry ≡ returned (asic, port)
    → load asic.id clients ≡ some c
    → bring_port_up b (bfrt name clients) (some ref) s
      ≡ returned (
          call_client b
            (enable_port c (u32 port.dev_port) port.config.speed port.config.fec port.config.an)
            s)
unfolding bring_port_up
bring_port_up_lem b name clients ref s asic port c behind known = ground (arith, behind, known)

deref_lem : {A : Type 0} (m : Option A) (a : A) → deref m ≡ returned a → m ≡ some a
deref_lem none a h = absurd (ground (arith, h))
deref_lem (some x) a h = ap some (returned_inj h)

port_behind_lem :
    (ref : PortRef) (registry : AsicRegistry) (asic : Asic) (port : Port)
    → port_behind ref registry ≡ returned (asic, port)
    → (load ref.asic registry.asic_map ≡ some asic)
      × (load ref.spec asic.port_registry.port_map ≡ some port)
unfolding port_behind
port_behind_lem ref registry asic port behind =
    let (owner, at, h1) = >>=-returned (deref (load ref.asic registry.asic_map)) _ behind in
    let (p, port_at, h2) = >>=-returned (deref (load ref.spec owner.port_registry.port_map)) _ h1 in
    let ends = returned_inj h2 in
    let owner_eq : owner ≡ asic = ap (λ (x : Asic × Port). x.0) ends in
    let port_eq : p ≡ port = ap (λ (x : Asic × Port). x.1) ends in
    (
      ground (arith, deref_lem (load ref.asic registry.asic_map) owner at, owner_eq),
      ground (
        arith,
        deref_lem (load ref.spec owner.port_registry.port_map) p port_at,
        owner_eq,
        port_eq,
      ),
    )

-- The device port that a port has when it was set: that of the switch, unless it had one.
abbrev pub dev_port_set : ℕ → Port → ℕ
dev_port_set dev p = if nat_beq p.dev_port 0 then dev else u32 p.dev_port

set_port_op :
    (c : Client) (dev : ℕ) (p : Port)
    → dev < 4294967296
    → (let q = set_dev_port dev p in
        enable_port c (u32 q.dev_port) q.config.speed q.config.fec q.config.an)
      ≡ enable_port c (dev_port_set dev p) p.config.speed p.config.fec p.config.an
unfolding set_dev_port
set_port_op c dev p small = elim (Bool-cases (nat_beq p.dev_port 0)) [
  | inl e ↦ let wrap : u32 dev ≡ dev = omega arith in rw (e, wrap) refl
  | inr e ↦ rw e refl
]

-- InitPorts of a new BfrtCentralizedCP returns if the clients know every port of the registry and enable
-- whatever port they are asked to, and BringPortUp of any port of the registry then returns no
-- error and makes the client of its switch enable the device port of the port, with the speed, the
-- FEC and the autonegotiation of the port. The device port is the one that the client names for the
-- cage and the lane of the port, unless the port had one before InitPorts, which it keeps. The
-- registry must hold each ASIC under its ID.
pub brought_up :
    (b : Bfrt) (name : String) (s : PortState) (ref : PortRef) (asic : Asic) (port : Port)
    → AcceptsEnabling b
    → AreKnown b s.registry.asic_map
    → IsKeyed s.registry.asic_map s.registry.asic_map
    → port_behind ref s.registry ≡ returned (asic, port)
    → (known : IsKnown b (client_of asic) port) × (cp : Cp) × (s' : PortState) × (init_ports b
          (bfrt name [])
          s
        ≡ returned (cp, s'))
      × (bring_port_up b cp (some ref) s'
          ≡ returned (
            none,
            record s' {
              ops =
                  s'.ops
                  ++ enable_port
                      (client_of asic)
                      (dev_port_set known.0 port)
                      port.config.speed
                      port.config.fec
                      port.config.an
                    ∷ [];
            },
          ))
unfolding init_ports port_behind
brought_up b name s ref asic port accepts known keyed behind =
    let m = s.registry.asic_map in
    let (asics, clients, ops, ran, done, keeps) =
      init_asics_lem b m m [] s.ops accepts known keyed in
    let (at, port_at) = port_behind_lem ref s.registry asic port behind in
    let r = done ref.asic asic at in
    let (one, up) = r.has_ports ref.spec port port_at in
    let dev = dev_port_set one.0 port in
    let yes = accepts (client_of asic) dev port.config.speed port.config.fec port.config.an ops in
    let s' : PortState = record { registry = record { asic_map = asics }; ops = ops } in
    let asic' : Asic = record asic {
      port_registry = record asic.port_registry { port_map = r.ports };
    } in
    let behind' : port_behind ref s'.registry ≡ returned (asic', set_dev_port one.0 port) =
      rw (r.found, up) refl in
    let called = bring_port_up_lem b name clients ref s' asic' _ _ behind' r.has_client in
    let same = set_port_op (client_of asic) one.0 port one.2 in
    (
      one,
      bfrt name clients,
      s',
      rw ran refl,
      called ∙ ap (λ op. returned (call_client b op s')) same ∙ rw yes refl,
    )
