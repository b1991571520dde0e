-- ===== src/Tests/TransferRuns.antt =====
-- Runs of desktop/src/engine/transfer.rs.
use antarloka.Prelude.{
  ◌≡◌, ◌≢◌, ◌<◌, ◌⊎◌, ◌^◌, refl, true, List, [], ◌∷◌, keep, length, arith, some, ok, err, list_beq,
  list_eq, nat_eq,
}
use antarloka.Prelude.Map.{lookup, insert, remove}
use antarloka.Text.{Bytes, codes}
use antarloka.Fs.{pieces, Disk, regular, join, parent}
use antarloka.Util.Unique.{unique_path}
use antarloka.Engine.Transfer.{
  IncomingTransfer, incomplete, written, contents, write_chunk, is_complete, new_transfer, accept,
  part_name, finish, finish_inner, publish, remove_file, flush_writer, append_file, AcceptIo,
}
use antarloka.Engine.Transfer.Chunks.{Tracks, Taken, Refused, write_chunk-cases}
use antarloka.Engine.Transfer.Stream.{concat, receive_all, receive_all-accepted}
use antarloka.Engine.Transfer.Finish.{Finished, finish-Finished}
use antarloka.Tests.Samples.{
  plain_digests, good_env, transfer_a, transfer_id, device_a, key_a, downloads, quarantine,
}

abbrev disk_a : Disk
disk_a = (transfer_a.part_path, regular []) ∷ []

transfer_a-Tracks : Tracks transfer_a disk_a
unfolding contents lookup list_beq
transfer_a-Tracks = record {
  open_file = refl;
  on_disk = [];
  stored = refl;
  fed = refl;
  counted = refl;
  bounded = omega arith;
}

write_chunk-cases_example :
    Taken 0 (1 ∷ 2 ∷ []) transfer_a disk_a (write_chunk written 0 (1 ∷ 2 ∷ []) transfer_a disk_a)
    ⊎ Refused transfer_a disk_a (write_chunk written 0 (1 ∷ 2 ∷ []) transfer_a disk_a)
write_chunk-cases_example =
    write_chunk-cases written 0 (1 ∷ 2 ∷ []) transfer_a disk_a transfer_a-Tracks

abbrev os_ok : AcceptIo
os_ok = record { dir_made = true; file_made = true }

abbrev pieces_a : List Bytes
pieces_a = (1 ∷ 2 ∷ []) ∷ (3 ∷ []) ∷ []

short_pieces : length (concat pieces_a) < 2 ^ 64
unfolding concat
short_pieces = omega arith

abbrev offered_a : IncomingTransfer
offered_a =
    new_transfer transfer_id device_a key_a (codes "a.txt") (length (concat pieces_a))
      (1 ∷ 2 ∷ 3 ∷ []) 90

receive_all-accepted_example :
    let (r, t1, disk1) = accept plain_digests os_ok quarantine offered_a [] in
    let (r2, t2, disk2) = receive_all pieces_a t1 disk1 in
    (r2 ≡ ok tt)
    × (is_complete t2 ≡ true)
    × (contents
          (join quarantine (part_name plain_digests transfer_id))
          (flush_writer written t2 disk2)
        ≡ some (concat pieces_a))
    × (t2.hasher ≡ concat pieces_a)
receive_all-accepted_example =
    receive_all-accepted plain_digests os_ok quarantine transfer_id device_a key_a (codes "a.txt")
      (1 ∷ 2 ∷ 3 ∷ []) 90 pieces_a [] refl refl short_pieces

-- All three bytes have come, and the last is still in the buffer.
abbrev done_a : IncomingTransfer
done_a = record transfer_a { received = 3; hasher = 1 ∷ 2 ∷ 3 ∷ []; buffered = 3 ∷ [] }

abbrev disk_done : Disk
disk_done = (transfer_a.part_path, regular (1 ∷ 2 ∷ [])) ∷ []

done_a-Tracks : Tracks done_a disk_done
unfolding contents lookup list_beq
done_a-Tracks = record {
  open_file = refl;
  on_disk = 1 ∷ 2 ∷ [];
  stored = refl;
  fed = refl;
  counted = refl;
  bounded = omega arith;
}

abbrev disk_after : Disk
disk_after = (join downloads (codes "a.txt"), regular (1 ∷ 2 ∷ 3 ∷ [])) ∷ []

finished_a :
    finish plain_digests good_env.finish_io 1 downloads done_a disk_done
    ≡ (ok (join downloads (codes "a.txt")), disk_after)
unfolding finish finish_inner list_beq parent unique_path lookup join keep pieces publish contents
    insert remove flush_writer append_file
finished_a = refl

part_elsewhere : parent transfer_a.part_path ≢ some downloads
unfolding parent
part_elsewhere e = ground (arith, e)

finish-Finished_example :
    Finished plain_digests 1 downloads done_a disk_done (join downloads (codes "a.txt")) disk_after
finish-Finished_example =
    finish-Finished plain_digests good_env.finish_io 1 downloads done_a disk_done
      (join downloads (codes "a.txt")) disk_after done_a-Tracks part_elsewhere finished_a

failed_a :
    finish plain_digests good_env.finish_io 1 downloads transfer_a disk_a
    ≡ (err (incomplete 0 3), [])
unfolding finish finish_inner remove_file remove insert lookup contents flush_writer append_file
    list_beq
failed_a = refl
