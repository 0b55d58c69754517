-- ===== src/Samples/Streams.antt =====
-- Captured output and frames.
use agent_workstation_gatewa.Base.{
  ◌≡◌, ◌≢◌, refl, pos, false, List, [], ◌∷◌, ◌++◌, some, ok, err, ◌==◌, if◌then◌else◌, length, map,
  arith,
}
use agent_workstation_gatewa.Text.{Bytes, codes, bytes_eq}
use agent_workstation_gatewa.Library.{Library, ascii_lower}
use agent_workstation_gatewa.OutputCapture.{Capture, new, write_all, snapshot}
use agent_workstation_gatewa.OutputCapture.Content.{concat}
use agent_workstation_gatewa.OutputCapture.Report.{report_of, snapshot-write_all}
use agent_workstation_gatewa.IpcFrame.{Writer, out_of_fuel, read, write, frame_of, put_uint32}
use agent_workstation_gatewa.IpcFrame.Header.{MakesProgress}
use agent_workstation_gatewa.IpcFrame.RoundTrip.{read-write, write_prefix, write_complete}

-- A standard library for ASCII texts, with stand-ins for the digest and the clock format.
abbrev pub ascii : Library
ascii = record {
  to_lower = map ascii_lower;
  equal_fold = λ a b. bytes_eq (map ascii_lower a) (map ascii_lower b);
  path_match = λ p c. some (bytes_eq p c);
  sha256 = λ s. 7 ∷ s;
  parse_time = λ s. some (length s);
  format_time = λ n. codes "t";
}

abbrev started : Capture
started = record { limit = 1024; digest = []; total = 0; retained = [] }

abbrev chunks : List Bytes
chunks = codes "ab" ∷ codes "c" ∷ []

snapshot-write_all_example :
    snapshot ascii (write_all started chunks) ≡ ok (report_of ascii 1024 (concat chunks))
unfolding new
snapshot-write_all_example = snapshot-write_all ascii 1024 {c = started} chunks refl (omega arith)

-- Takes one byte at each call.
one_by_one : Writer
one_by_one k s = record { count = pos 1; failed = false }

-- Takes two bytes at the first call, and fails at the second.
breaks : Writer
breaks k s = record { count = pos 2; failed = if k == 0 then false else (k == 1) }

payload_sent : (write (some one_by_one) (codes "hi") (pos 16)).0 ≡ ok tt
unfolding write one_by_one put_uint32
payload_sent = refl

read-write_example :
    read (some ((write (some one_by_one) (codes "hi") (pos 16)).1 ++ codes "!")) (pos 16)
    ≡ ok (codes "hi", codes "!")
read-write_example = read-write one_by_one (codes "hi") (codes "!") 16 payload_sent

write_prefix_example :
    (unsent : Bytes) × ((write (some breaks) (codes "hi") (pos 16)).1 ++ unsent
      ≡ frame_of (codes "hi"))
    × ((write (some breaks) (codes "hi") (pos 16)).0 ≢ err out_of_fuel)
write_prefix_example = write_prefix breaks (codes "hi") 16

one_by_one-MakesProgress : MakesProgress one_by_one
unfolding one_by_one
one_by_one-MakesProgress k b s = (0, refl, omega arith)

write_complete_example :
    write (some one_by_one) (codes "hi") (pos 16) ≡ (ok tt, frame_of (codes "hi"))
write_complete_example =
    write_complete one_by_one (codes "hi") 16 one_by_one-MakesProgress
      (record { nonempty = omega arith; within_maximum = omega arith; maximum_bound = omega arith })
