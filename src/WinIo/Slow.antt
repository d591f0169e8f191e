-- ===== src/WinIo/Slow.antt =====
-- A file whose calls transfer at most 100 bytes at a time: the laws of `Files` can hold.
use node_vmm.Prelude.{◌+◌, refl, arith, min, max, ltb, if◌then◌else◌, true, some}
use node_vmm.WinIo.Files.{FileApi, IsFileApi, IsBounded, Contents, place}

abbrev pub slow_file : FileApi Contents
slow_file = record {
  seek = λ off c. (true, record c { position = off });
  read_file = λ len c. (
    some (min len 100, λ k. c.bytes (c.position + k)),
    record c { position = c.position + min len 100 },
  );
  write_file = λ len src c. (
    some (min len 100),
    record {
      bytes = place (min len 100) c.position src c.bytes;
      size = max c.size (c.position + min len 100);
      position = c.position + min len 100;
    },
  );
  set_end_of_file = λ c. (true, record c { size = c.position });
  set_sparse = λ c. (true, c);
  flush = λ c. (true, c);
}

abbrev pub itself : Contents → Contents
itself c = c

pub slow_file-works : IsFileApi slow_file itself
slow_file-works = record {
  seek_works = λ off c h. (refl, refl, (refl, λ a. refl));
  read_works = λ len c h h'. (
    min len 100,
    (λ k. c.bytes (c.position + k)),
    refl,
    omega arith,
    omega arith,
    (λ k q. refl),
    refl,
    (refl, λ a. refl),
  );
  cut_works = λ c. (refl, refl, refl);
  sparse_works = λ c. refl;
  write_works = λ len src c h. (min len 100, refl, omega arith, omega arith, refl, refl, λ a. refl);
}

pub slow_file-IsBounded : IsBounded slow_file
slow_file-IsBounded len got bytes c e = ground (arith, e)

-- 1,024 bytes, each the number of its sector.
abbrev pub two_sectors : Contents
two_sectors = record { bytes = λ a. if ltb a 512 then 1 else 2; size = 1024; position = 7 }
