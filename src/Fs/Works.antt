-- ===== src/Fs/Works.antt =====
-- Writes and reads of kernel/fs/fs.c on a drive that works.
use stink_os.Base.{
  ◌++◌, ℕ, zero, suc, ◌-◌, ◌%◌, ◌≤◌, ◌<◌, ◌≡◌, refl, sym, subst, List, [], ◌∷◌, Option, none, some,
  Bool, true, false, length, drop, ltb, leb, if◌then◌else◌, arith, add32, min,
}
use stink_os.Fs.{Ata, Dir, Mount, file, fs_max_files, drive_read, drive_write, sector_size}
use stink_os.Fs.Stink.{
  stinkfs_find, place, need_sectors, write_sectors, write_placed, save_if, stinkfs_file_write,
  read_bytes, read_file, stinkfs_file_read_at,
}
use stink_os.Fs.Load.{working, save_works}

write_sectors_works :
    (rounds drive lba : ℕ) (src : List ℕ) (disk : ℕ → ℕ → List ℕ)
    → ((write_sectors rounds drive lba src (working disk)).0 ≡ true)
      × ((write_sectors rounds drive lba src (working disk)).1.faults ≡ [])
unfolding write_sectors drive_write
write_sectors_works zero drive lba src disk = (refl, refl)
write_sectors_works (suc rounds) drive lba [] disk = (refl, refl)
write_sectors_works (suc rounds) drive lba (c ∷ cs) disk =
    write_sectors_works rounds drive (add32 lba 1) (drop sector_size (c ∷ cs)) _

write_placed_works :
    (i : ℕ) (bytes : List ℕ) (m : Mount) (disk : ℕ → ℕ → List ℕ)
    → (write_placed (some i) bytes m (working disk)).0 ≡ true
unfolding write_placed
write_placed_works i bytes m disk =
    saves _ _ (write_sectors_works (length bytes) m.drive (file m.dir i).start bytes disk)
  where
    saves :
        (m1 : Mount) (c : Bool × Ata)
        → (c.0 ≡ true) × (c.1.faults ≡ [])
        → (save_if c.0 m1 c.1).0 ≡ true
    saves m1 (true, a) (ok, f) = save_works m1 a f
    saves m1 (false, a) (ok, f) = cc ok

placed_new :
    (need data_end : ℕ) (name : List ℕ) (d : Dir)
    → d.count < fs_max_files
    → add32 d.next_free need ≤ data_end
    → (place none need data_end name d).0 ≡ some d.count
unfolding place
placed_new need data_end name d lt fits = rw (room, entry) refl
  where
    room : ltb data_end (add32 d.next_free need) ≡ false
    room = ground arith

    entry : leb fs_max_files d.count ≡ false
    entry = ground arith

joined_works :
    (rest : Option (List ℕ) × Ata) (part : List ℕ)
    → (out : List ℕ) × (rest.0 ≡ some out)
    → (out : List ℕ) × ((elim rest.0 as (λ x. Option (List ℕ) × Ata) [
      | none ↦ (none, rest.1)
      | some more ↦ (some (part ++ more), rest.1)
    ]).0
        ≡ some out)
joined_works (none, a) part (out, e) = cc e
joined_works (some more, a) part (out, e) = (part ++ more, refl)

read_bytes_works :
    (rounds drive start at remaining : ℕ) (disk : ℕ → ℕ → List ℕ)
    → (out : List ℕ) × ((read_bytes rounds drive start at remaining (working disk)).0 ≡ some out)
unfolding read_bytes drive_read
read_bytes_works zero drive start at remaining disk = ([], refl)
read_bytes_works (suc rounds) drive start at zero disk = ([], refl)
read_bytes_works (suc rounds) drive start at (suc more) disk = joined_works _ _ (
    read_bytes_works rounds drive start (add32 at (min (512 - at % 512) (suc more)))
      (suc more - min (512 - at % 512) (suc more)) disk)

chosen_works :
    (r : Option ℕ × Dir) (k : ℕ) (bytes : List ℕ) (m : Mount) (disk : ℕ → ℕ → List ℕ)
    → r.0 ≡ some k
    → (write_placed r.0 bytes (record m { dir = r.1 }) (working disk)).0 ≡ true
chosen_works (none, d) k bytes m disk e = cc e
chosen_works (some j, d) k bytes m disk e = write_placed_works j bytes (record m { dir = d }) disk

read_file_works :
    (i maxsize offset : ℕ) (m : Mount) (disk : ℕ → ℕ → List ℕ)
    → (out : List ℕ) × ((read_file (some i) maxsize offset m (working disk)).0 ≡ some out)
unfolding read_file
read_file_works i maxsize offset m disk = either (leb (file m.dir i).size offset)
  where
    n : ℕ
    n = min ((file m.dir i).size - offset) maxsize

    either :
        (past : Bool)
        → (out : List ℕ) × ((if◌then◌else◌ {A = Option (List ℕ) × Ata} past
              (some [], working disk)
              (read_bytes n m.drive (file m.dir i).start offset n (working disk))).0
            ≡ some out)
    either true = ([], refl)
    either false = read_bytes_works n m.drive (file m.dir i).start offset n disk

-- On a drive whose commands all succeed, reading a name that is found returns bytes, whatever the
-- length and the offset.
pub stinkfs_file_read_at_works :
    (name : List ℕ) (maxsize offset i : ℕ) (m : Mount) (a : Ata)
    → a.faults ≡ []
    → stinkfs_find m.dir name ≡ some i
    → (out : List ℕ) × ((stinkfs_file_read_at name maxsize offset m a).0 ≡ some out)
unfolding stinkfs_file_read_at
stinkfs_file_read_at_works name maxsize offset i m a works found =
    subst
      (λ (fs : List (Option ℕ)).
        (out : List ℕ) × ((stinkfs_file_read_at name maxsize offset m
            (record { disk = a.disk; faults = fs })).0
          ≡ some out))
      (sym works)
      (subst (λ o. (out : List ℕ) × ((read_file o maxsize offset m (working a.disk)).0 ≡ some out))
        (sym found) (read_file_works i maxsize offset m a.disk))

-- On a drive whose commands all succeed, writing a new name succeeds if the directory has a free entry
-- and the data region has room for the sectors.
pub stinkfs_file_write_works :
    (name bytes : List ℕ) (m : Mount) (a : Ata)
    → a.faults ≡ []
    → stinkfs_find m.dir name ≡ none
    → m.dir.count < fs_max_files
    → add32 m.dir.next_free (need_sectors (length bytes)) ≤ m.data_end
    → (stinkfs_file_write name bytes m a).0 ≡ true
unfolding stinkfs_file_write
stinkfs_file_write_works name bytes m a works new lt fits =
    subst
      (λ (fs : List (Option ℕ)).
        (stinkfs_file_write name bytes m (record { disk = a.disk; faults = fs })).0 ≡ true)
      (sym works)
      (subst
        (λ o.
          (write_placed (place o need m.data_end name m.dir).0 bytes
            (record m { dir = (place o need m.data_end name m.dir).1 }) (working a.disk)).0
          ≡ true)
        (sym new)
        (chosen_works (place none need m.data_end name m.dir) m.dir.count bytes m a.disk
          (placed_new need m.data_end name m.dir lt fits)))
  where
    need : ℕ
    need = need_sectors (length bytes)
