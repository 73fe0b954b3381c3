-- ===== src/Witnesses/Files.antt =====
-- Concrete inputs for the theorems on the file commands.
use xeedee.Base.{
  ℕ, if◌then◌else◌, bytes_eq, ◌^◌, ◌≡◌, refl, true, false, List, [], ◌∷◌, map, arith, Bytes, codes,
  ok,
}
use xeedee.Commands.Fs.{
  DirEntry, dir_list, drive_free_space, get_file_attributes, make_directory, delete, file_eof,
  rename,
}
use xeedee.Commands.Fs.Listing.{entry_line, dir_list-parse}
use xeedee.Commands.Fs.Paths.{IsOneLine, path_commands-IsOneLine}
use xeedee.Commands.Fs.Written.{IsPath, created, rename-wire_line}
use xeedee.Crates.{plain, plain-Documented}
use xeedee.Protocol.Kv.{parse_kv_line, value_u64}
use xeedee.Protocol.Response.{Response}
use xeedee.Protocol.Tokens.{bare, quoted}
use xeedee.Text.Ascii.{contains}
use xeedee.Text.Number.{print}

abbrev two_entries : List DirEntry
two_entries =
    record {
      name = codes "my game";
      size = 0;
      create_time = record { ticks = 2 ^ 40 };
      change_time = record { ticks = 7 };
      is_directory = true;
    }
    ∷ record {
      name = codes "a.xex";
      size = 5000000000;
      create_time = record { ticks = 0 };
      change_time = record { ticks = 1 };
      is_directory = false;
    }
    ∷ []

-- One half has eight digits, the others are plain.
abbrev pads : DirEntry → Bytes → ℕ
pads e key = if bytes_eq key (codes "createhi") then 5 else 0

dir_list-parse_example :
    (dir_list plain (codes "E:\\")).parse
      (Response.multiline (codes "ok") (map (entry_line pads) two_entries))
    ≡ ok two_entries
dir_list-parse_example =
    dir_list-parse plain plain-Documented (codes "E:\\") (codes "ok") pads two_entries (
      record {
        unquoted = (refl, (refl, (refl, (refl, (refl, (refl, (refl, tt)))))));
        size_fits = omega arith;
        create_fits = omega arith;
        change_fits = omega arith;
      },
      (
        record {
          unquoted = (refl, (refl, (refl, (refl, (refl, tt)))));
          size_fits = omega arith;
          create_fits = omega arith;
          change_fits = omega arith;
        },
        tt,
      ),
    )

abbrev path : Bytes
path = codes "E:\\a.xex"

path-IsPath : IsPath path
unfolding contains
path-IsPath = record { some_bytes = omega arith; no_quote = refl; no_break = refl }

path_commands-IsOneLine_example :
    IsOneLine ((drive_free_space plain path).wire_line)
    × IsOneLine ((dir_list plain path).wire_line)
    × IsOneLine ((get_file_attributes plain path).wire_line)
    × IsOneLine ((make_directory path).wire_line)
    × IsOneLine ((delete path true).wire_line)
    × IsOneLine ((file_eof path 12 true).wire_line)
    × IsOneLine ((rename path path).wire_line)
path_commands-IsOneLine_example = path_commands-IsOneLine plain path path 12 true

rename-wire_line_example :
    ((line : Bytes) × ((rename path path).wire_line ≡ ok line)
      × (parse_kv_line plain line ≡ record {
        pairs = (codes "NAME", quoted path) ∷ (codes "NEWNAME", quoted path) ∷ [];
        flags = codes "rename" ∷ [];
      }))
    × ((line : Bytes) × ((file_eof path 12 true).wire_line ≡ ok line)
        × (parse_kv_line plain line ≡ record {
          pairs = (codes "NAME", quoted path) ∷ (codes "SIZE", bare (print 10 12)) ∷ [];
          flags = codes "fileeof" ∷ created true;
        })
        × (value_u64 (bare (print 10 12)) (codes "SIZE") ≡ ok 12))
rename-wire_line_example =
    rename-wire_line plain plain-Documented path path 12 true path-IsPath path-IsPath (omega arith)
