-- ===== src/Volume/PartitionLabel.antt =====
-- src/volume/PartitionLabel.cpp: what a partition is called.
use data_recovery.Prelude.{
  ℕ, ◌/◌, ◌%◌, ◌^◌, List, [], ◌∷◌, ◌++◌, ◌==◌, if◌then◌else◌, get_or, codes, same_bytes,
}
use data_recovery.Core.NameEscape.{hex_digits}
use data_recovery.Volume.Gpt.Placement.{GptPartition}

pub record KnownMbrType : Type 0 where
  pub code : ℕ
  pub name : List ℕ

abbrev pub known_mbr_types : List KnownMbrType
known_mbr_types =
    record { code = 0x01; name = codes "FAT12" }
    ∷ record { code = 0x04; name = codes "FAT16" }
    ∷ record { code = 0x06; name = codes "FAT16" }
    ∷ record { code = 0x07; name = codes "NTFS/exFAT" }
    ∷ record { code = 0x0b; name = codes "FAT32" }
    ∷ record { code = 0x0c; name = codes "FAT32 (LBA)" }
    ∷ record { code = 0x82; name = codes "Linux swap" }
    ∷ record { code = 0x83; name = codes "Linux" }
    ∷ record { code = 0x8e; name = codes "Linux LVM" }
    ∷ record { code = 0xef; name = codes "EFI system" }
    ∷ []

pub record KnownGptType : Type 0 where
  pub on_disk_hex : List ℕ
  pub name : List ℕ

abbrev pub known_gpt_types : List KnownGptType
known_gpt_types =
    record { on_disk_hex = codes "28732AC11FF8D211BA4B00A0C93EC93B"; name = codes "EFI system" }
    ∷ record {
      on_disk_hex = codes "A2A0D0EBE5B9334487C068B6B72699C7";
      name = codes "Windows basic data";
    }
    ∷ record {
      on_disk_hex = codes "16E3C9E35C0BB84D817DF92DF00215AE";
      name = codes "Microsoft reserved";
    }
    ∷ record {
      on_disk_hex = codes "A4BB94DED106404DA16ABFD50179D6AC";
      name = codes "Windows recovery";
    }
    ∷ record {
      on_disk_hex = codes "AF3DC60F838472478E793D69D8477DE4";
      name = codes "Linux filesystem";
    }
    ∷ record { on_disk_hex = codes "6DFD5706ABA4C34384E50933C84B4F4F"; name = codes "Linux swap" }
    ∷ []

-- `toHex`
unfoldable pub to_hex : List ℕ → List ℕ
to_hex [] = []
to_hex (value ∷ raw) =
    get_or hex_digits (value / 2 ^ 4) 0 ∷ get_or hex_digits (value % 2 ^ 4) 0 ∷ to_hex raw

-- The loop of `knownGptName`.
unfoldable pub known_gpt_name_in : List KnownGptType → List ℕ → List ℕ
known_gpt_name_in [] on_disk_hex = codes "GPT partition"
known_gpt_name_in (known ∷ rest) on_disk_hex =
    let later = known_gpt_name_in rest on_disk_hex in
    if same_bytes known.on_disk_hex on_disk_hex then known.name else later

-- `knownGptName`
unfoldable pub known_gpt_name : List ℕ → List ℕ
known_gpt_name on_disk_hex = known_gpt_name_in known_gpt_types on_disk_hex

-- The loop of `labelOfMbrType`.
unfoldable pub known_mbr_name : List KnownMbrType → ℕ → List ℕ
known_mbr_name [] type_code = codes "type 0x" ++ to_hex (type_code ∷ [])
known_mbr_name (known ∷ rest) type_code =
    let later = known_mbr_name rest type_code in
    if known.code == type_code then known.name else later

-- `labelOfMbrType`
unfoldable pub label_of_mbr_type : ℕ → List ℕ
label_of_mbr_type type_code = known_mbr_name known_mbr_types type_code

-- `labelOfGptPartition`, on its name.
unfoldable pub label_or : List ℕ → List ℕ → List ℕ
label_or [] type_guid = known_gpt_name (to_hex type_guid)
label_or (c ∷ name) type_guid = c ∷ name

-- `labelOfGptPartition`
unfoldable pub label_of_gpt_partition : GptPartition → List ℕ
label_of_gpt_partition partition = label_or partition.name partition.type_guid
