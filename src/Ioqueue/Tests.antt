-- ===== src/Ioqueue/Tests.antt =====
-- A queue that holds two bytes across the end of the buffer, and a full one.
use mcy_os.Prelude.{
  ℕ, ◌≡◌, refl, ◌∙◌, false, List, [], ◌∷◌, ◌++◌, arith, length, set, replicate, length-set,
  length-replicate, ok,
}
use mcy_os.LinkedList.{null}
use mcy_os.Ioqueue.{bufsize, Ioqueue, done, sleeps, pipe_read, pipe_write}
use mcy_os.Ioqueue.Fifo.{IsValid, contents}
use mcy_os.Ioqueue.Pipe.{pipe_read_lem, pipe_write_lem, pipe_write_waits}

abbrev zero_byte : ℕ
zero_byte = 0

abbrev two_bytes : Ioqueue
two_bytes = record {
  producer = 7;
  consumer = null;
  buf = set (set (replicate bufsize zero_byte) 2047 65) 0 66;
  head = 1;
  tail = 2047;
  unblocked = [];
}

abbrev almost_full : Ioqueue
almost_full = record {
  producer = null;
  consumer = null;
  buf = replicate bufsize zero_byte;
  head = 2046;
  tail = 0;
  unblocked = [];
}

two_bytes-IsValid : IsValid two_bytes
two_bytes-IsValid = record {
  sized =
      length-set {A = ℕ} (set (replicate bufsize zero_byte) 2047 65) 0 66
      ∙ length-set {A = ℕ} (replicate bufsize zero_byte) 2047 65
      ∙ length-replicate bufsize zero_byte;
  head_in = omega arith;
  tail_in = omega arith;
}

almost_full-IsValid : IsValid almost_full
almost_full-IsValid = record {
  sized = length-replicate bufsize zero_byte;
  head_in = omega arith;
  tail_in = omega arith;
}

pipe_read_lem_example :
    (got : List ℕ) × (q' : Ioqueue) × (pipe_read false 3 two_bytes 5 ≡ ok (done got q'))
    × IsValid q'
    × (contents two_bytes ≡ got ++ contents q')
    × (length got ≡ 2)
pipe_read_lem_example = pipe_read_lem 3 two_bytes 5 two_bytes-IsValid

pipe_write_lem_example :
    (q' : Ioqueue) × (pipe_write false 3 two_bytes (67 ∷ 68 ∷ []) 2 ≡ ok (done 2 q'))
    × IsValid q'
    × (contents q' ≡ contents two_bytes ++ 67 ∷ 68 ∷ [])
pipe_write_lem_example =
    pipe_write_lem 3 two_bytes (67 ∷ 68 ∷ []) [] two_bytes-IsValid (omega arith)

-- Of two bytes the second does not fit.
pipe_write_waits_example :
    (q' : Ioqueue) × (pipe_write false 3 almost_full (67 ∷ 68 ∷ []) 2 ≡ ok (sleeps q'))
    × (contents q' ≡ contents almost_full ++ 67 ∷ [])
    × (q'.producer ≡ 3)
pipe_write_waits_example =
    pipe_write_waits 3 almost_full (67 ∷ []) 68 [] 2 almost_full-IsValid refl (omega arith) refl
