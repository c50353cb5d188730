-- ===== src/Mbr/Tests.antt =====
-- The partition table on concrete input: a blank disk gets one bootable partition.
use stink_os.Base.{ℕ, ◌≡◌, refl, List, [], ◌∷◌, true, replicate, arith, length-replicate}
use stink_os.Fs.{Ata, sector_size, drive_read, drive_write}
use stink_os.Mbr.{Partition, mbr_write, old_sector}
use stink_os.Mbr.Table.{FitsEntry, ReadBack, Updated, mbr_read-mbr_write}

abbrev blank : Ata
blank = record { disk = λ d l. replicate sector_size 0; faults = [] }

abbrev no_partition : Partition
no_partition = record { bootable = 0; type_byte = 0; first_lba = 0; sector_count = 0 }

abbrev os_partition : Partition
os_partition = record { bootable = 0x80; type_byte = 0x53; first_lba = 2048; sector_count = 204800 }

abbrev layout : List Partition
layout = os_partition ∷ no_partition ∷ no_partition ∷ no_partition ∷ []

no_partition-FitsEntry : FitsEntry no_partition
no_partition-FitsEntry = record {
  bootable_fits = omega arith;
  type_fits = omega arith;
  lba_fits = omega arith;
  count_fits = omega arith;
}

os_partition-FitsEntry : FitsEntry os_partition
os_partition-FitsEntry = record {
  bootable_fits = omega arith;
  type_fits = omega arith;
  lba_fits = omega arith;
  count_fits = omega arith;
}

layout_written : (mbr_write 0 layout blank).0 ≡ true
unfolding mbr_write drive_read drive_write
layout_written = refl

mbr_read-mbr_write_example :
    ReadBack 0 layout (mbr_write 0 layout blank).1
    × Updated 0 (old_sector (drive_read 0 0 1 blank).0) blank (mbr_write 0 layout blank).1
mbr_read-mbr_write_example =
    mbr_read-mbr_write 0 layout blank (λ l. length-replicate {A = ℕ} sector_size 0) refl
      (
        os_partition-FitsEntry,
        (no_partition-FitsEntry, (no_partition-FitsEntry, (no_partition-FitsEntry, tt))),
      )
      layout_written
