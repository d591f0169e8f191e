-- ===== src/VirtioRng/Tests.antt =====
-- A device with a generator that always answers, and a queue with one chain ready.
use node_vmm.Prelude.{ℕ, ◌+◌, ◌≡◌, refl, arith, true, some, Result, ok, err, Returns}
use node_vmm.Bytes.{poke, read_u16, read_u32, read_u64, write_u16, write_u32}
use node_vmm.Bytes.RoundTrip.{IsBytes}
use node_vmm.VirtioRng.State.{
  Rng, World, Generator, initial, fill_random, fill_chunks, fill, ptr_or_null,
}
use node_vmm.VirtioRng.Queue.{
  handle_queue, is_set_up, serve, service_chain, walk, fill_desc, push_used, notify,
}
use node_vmm.VirtioRng.Ring.{Answers}
use node_vmm.VirtioRng.Service.{IsInside, handle_queue_catches_up}

abbrev sevens : Generator
sevens n len = some (λ i. 7)

sevens-Answers : Answers sevens
sevens-Answers n len e = ground arith

-- Descriptor 0 at 0x100 has four bytes at 0x400 to fill, and the available index is 1.
abbrev guest : World
guest = record {
  memory = poke 0x202 1 (poke 0x10c 2 (poke 0x108 4 (poke 0x101 4 (λ a. 0))));
  drawn = 0;
}

guest-IsBytes : IsBytes guest.memory
guest-IsBytes a = ground arith

abbrev ready : Rng
ready = record initial {
  queue = record {
    size = 64;
    ready = true;
    last_avail = 0;
    desc_addr = 0x100;
    driver_addr = 0x200;
    device_addr = 0x300;
  };
}

ready_set_up : is_set_up ready.queue ≡ true
unfolding is_set_up
ready_set_up = refl

-- The byte that the run stores, the used index, and the interrupts raised.
abbrev outcome : Result (Rng × World) → ℕ × ℕ × ℕ
outcome (ok (rng, w)) = (w.memory 0x403, read_u16 0x302 w.memory, rng.raised)
outcome (err e) = (0, 0, 0)

handle_queue_here : outcome (handle_queue sevens 0x1000 ready guest) ≡ (7, 1, 1)
unfolding handle_queue serve service_chain walk fill_desc fill_random push_used notify is_set_up
    ptr_or_null write_u32 write_u16 read_u64 read_u32 read_u16 fill_chunks fill initial
handle_queue_here = refl

ready-IsInside : IsInside 0x1000 ready.queue
ready-IsInside = ground arith

handle_queue_catches_up_example :
    Returns
      (λ (rng', w'). rng'.queue.last_avail ≡ read_u16 (0x200 + 2) guest.memory)
      (handle_queue sevens 0x1000 ready guest)
handle_queue_catches_up_example =
    handle_queue_catches_up sevens 0x1000 ready guest sevens-Answers ready_set_up ready-IsInside
      guest-IsBytes
