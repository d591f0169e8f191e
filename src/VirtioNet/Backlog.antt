-- ===== src/VirtioNet/Backlog.antt =====
-- The packets that wait: their order, and how many there are.
use node_vmm.Prelude.{
  ℕ, ◌++◌, ltb, if◌then◌else◌, ◌≤◌, ◌≡◌, refl, ap, ◌∙◌, arith, Bool, true, false, Bool-cases, inl,
  inr, List, [], ◌∷◌, length, length-append,
}
use node_vmm.Bytes.{Memory}
use node_vmm.VirtioNet.State.{Net, net_hdr_len, raise_used_buffer_irq}
use node_vmm.VirtioNet.Receive.{
  finish, deliver_now, flush, flush_rx_backlog, enqueue, put_off, deliver_behind, deliver_rx_packet,
}

abbrev pub with_backlog : List (List ℕ) → Bool → Net → Net
with_backlog backlog active net = record net { rx_backlog = backlog; rx_flush_active = active }

-- A packet that is refused leaves no trace.
deliver_now_refused :
    (mem_size : ℕ) (packet : List ℕ) (net : Net) (m : Memory)
    → (deliver_now mem_size packet net m).0 ≡ false
    → deliver_now mem_size packet net m ≡ (false, net, m)
unfolding deliver_now
deliver_now_refused mem_size packet net m h = ground arith

-- The device does not look at the backlog while it copies a packet.
deliver_now-with_backlog :
    (mem_size : ℕ) (packet : List ℕ) (backlog : List (List ℕ)) (active : Bool) (net : Net)
    (m : Memory)
    → deliver_now mem_size packet (with_backlog backlog active net) m ≡ (
      (deliver_now mem_size packet net m).0,
      with_backlog backlog active (deliver_now mem_size packet net m).1,
      (deliver_now mem_size packet net m).2,
    )
unfolding deliver_now finish raise_used_buffer_irq net_hdr_len
deliver_now-with_backlog mem_size packet backlog active net m = ground arith

-- Packets are taken from the front, one after the other: each is copied or dropped, up to one that
-- finds no buffer of the guest, which stays at the front and changes nothing.
pub data Flushes (mem_size : ℕ)
    : List (List ℕ) → Net → Memory → List (List ℕ) → Net → Memory → Type 0 where
  emptied : (net : Net) (m : Memory) → Flushes mem_size [] net m [] net m
  held :
      (packet : List ℕ) (rest : List (List ℕ)) (net : Net) (m : Memory)
      → deliver_now mem_size packet net m ≡ (false, net, m)
      → Flushes mem_size (packet ∷ rest) net m (packet ∷ rest) net m
  handed :
      (packet : List ℕ) (rest left : List (List ℕ)) (net net' net'' : Net) (m m' m'' : Memory)
      → deliver_now mem_size packet net m ≡ (true, net', m')
      → Flushes mem_size rest net' m' left net'' m''
      → Flushes mem_size (packet ∷ rest) net m left net'' m''

-- An operation that ends with the packets `queue` flushed, from `net` on.
abbrev pub EndsFlushed : ℕ → List (List ℕ) → Net → Memory → Net × Memory → Type 0
EndsFlushed mem_size queue net m r =
    (left : List (List ℕ)) × (net' : Net) × (m' : Memory) × Flushes mem_size queue net m left net'
      m'
    × (r ≡ (with_backlog left false net', m'))

-- What the loop does once a packet was tried.
abbrev go_on : ℕ → List ℕ → List (List ℕ) → Bool × Net × Memory → Net × Memory
go_on mem_size packet rest (done, net, m) = elim done [
  | false ↦ (with_backlog (packet ∷ rest) false net, m)
  | true ↦ flush mem_size rest net m
]

flush-EndsFlushed :
    (mem_size : ℕ) (queue backlog : List (List ℕ)) (active : Bool) (net : Net) (m : Memory)
    → EndsFlushed mem_size queue net m (flush mem_size queue (with_backlog backlog active net) m)
unfolding flush
flush-EndsFlushed mem_size [] backlog active net m = ([], net, m, emptied net m, refl)
flush-EndsFlushed mem_size (packet ∷ rest) backlog active net m =
    let r : Bool × Net × Memory = deliver_now mem_size packet net m in
    let next : Bool → Net × Memory =
      λ b. go_on mem_size packet rest (b, with_backlog backlog active r.1, r.2) in
    let tried = deliver_now-with_backlog mem_size packet backlog active net m in
    elim (Bool-cases r.0) [
      | inl e ↦
          (let (left, net', m', run, eq) = flush-EndsFlushed mem_size rest backlog active r.1 r.2 in
            (
              left,
              net',
              m',
              handed packet rest left net r.1 net' m r.2 m' (ap (λ b. (b, r.1, r.2)) e) run,
              ap (go_on mem_size packet rest) tried ∙ (ap next e ∙ eq),
            ))
      | inr e ↦
          (let same = deliver_now_refused mem_size packet net m e in
            (
              packet ∷ rest,
              net,
              m,
              held packet rest net m same,
              ap (go_on mem_size packet rest) tried
                  ∙ (ap next e
                      ∙ ap
                          (λ (s : Bool × Net × Memory).
                            (with_backlog (packet ∷ rest) false s.1, s.2))
                          same),
            ))
    ]

abbrev after_first : ℕ → List ℕ → Bool × Net × Memory → Net × Memory
after_first mem_size packet (done, net, m) = elim done [
  | true ↦ flush_rx_backlog mem_size net m
  | false ↦ put_off mem_size packet net m
]

behind-EndsFlushed :
    (mem_size : ℕ) (packet : List ℕ) (backlog : List (List ℕ)) (net : Net) (m : Memory)
    → EndsFlushed mem_size
        (enqueue packet backlog)
        net
        m
        (deliver_behind mem_size packet backlog (with_backlog backlog false net) m)
unfolding deliver_behind flush_rx_backlog flush
behind-EndsFlushed mem_size packet (waiting ∷ rest) net m =
    let queue : List (List ℕ) = enqueue packet (waiting ∷ rest) in
    flush-EndsFlushed mem_size queue queue true net m
behind-EndsFlushed mem_size packet [] net m =
    let r : Bool × Net × Memory = deliver_now mem_size packet net m in
    let step : Bool × Net × Memory → Net × Memory = λ s. after_first mem_size packet s in
    let tried = deliver_now-with_backlog mem_size packet [] false net m in
    let next : Bool → Net × Memory = λ b. step (b, with_backlog [] false r.1, r.2) in
    elim (Bool-cases r.0) [
      | inl e ↦ (
        [],
        r.1,
        r.2,
        handed packet [] [] net r.1 r.1 m r.2 r.2 (ap (λ b. (b, r.1, r.2)) e) (emptied r.1 r.2),
        ap step tried ∙ ap next e,
      )
      | inr e ↦
          (let same = deliver_now_refused mem_size packet net m e in
            let (left, net', m', run, eq) =
              flush-EndsFlushed mem_size (packet ∷ []) (packet ∷ []) true net m in
            (
              left,
              net',
              m',
              run,
              ap step tried
                  ∙ (ap next e
                      ∙ (ap
                            (λ (s : Bool × Net × Memory).
                              flush mem_size (packet ∷ []) (with_backlog (packet ∷ []) true s.1)
                                s.2)
                            same
                          ∙ eq)),
            ))
    ]

pub deliver_rx_packet-EndsFlushed :
    (mem_size : ℕ) (packet : List ℕ) (net : Net) (m : Memory)
    → net.rx_flush_active ≡ false
    → EndsFlushed mem_size
        (if ltb (length net.rx_backlog) 256 then net.rx_backlog ++ packet ∷ [] else net.rx_backlog)
        net
        m
        (deliver_rx_packet mem_size packet net m)
unfolding deliver_rx_packet
deliver_rx_packet-EndsFlushed mem_size packet net m h =
    let (left, net', m', run, eq) = behind-EndsFlushed mem_size packet net.rx_backlog net m in
    (
      left,
      net',
      m',
      run,
      ap (λ b. deliver_behind mem_size packet net.rx_backlog (with_backlog net.rx_backlog b net) m)
            h
          ∙ eq,
    )

length-Flushes :
    {mem_size : ℕ} {queue left : List (List ℕ)} {net net' : Net} {m m' : Memory}
    → Flushes mem_size queue net m left net' m'
    → length left ≤ length queue
length-Flushes (emptied net m) = omega arith
length-Flushes (held packet rest net m e) = omega arith
length-Flushes (handed packet rest left net net' net'' m m' m'' e run) =
    omega (arith, length-Flushes run)

-- No more than 256 packets wait, where no more did before and no other flush is under way.
pub length-deliver_rx_packet :
    (mem_size : ℕ) (packet : List ℕ) (net : Net) (m : Memory)
    → net.rx_flush_active ≡ false
    → length net.rx_backlog ≤ 256
    → length (deliver_rx_packet mem_size packet net m).0.rx_backlog ≤ 256
length-deliver_rx_packet mem_size packet net m h l =
    let (left, net', m', run, eq) = deliver_rx_packet-EndsFlushed mem_size packet net m h in
    rw eq (ground (arith, length-Flushes run, length-append {0} net.rx_backlog (packet ∷ [])))
