-- ===== src/DescriptorReader/Reading.antt =====
-- When the descriptor reader has a defined end, and what it prints.
use test_server.Base.{◌++◌, ◌∷◌, List, Option, codes, none, some, [], ◌≡◌}
use test_server.DescriptorReader.{parsed_lines, pool_line, text_line, Line, Library}

-- What is documented of a pool: a type is found under its own name in the pool of its file.
pub record FindsTypes (library : Library) : Type 0 where
  pub finds :
      (d : library.Descriptor)
      → library.find_message_type (library.pool (library.file d)) (library.full_name d) ≡ some d

module _ (library : Library) where
  -- What is printed of a message: it, its options and the pools, and then what its options are as a
  -- message of its own type, not of the type of the options, or that they are no such message.
  abbrev pub message_lines : library.File → Option library.Descriptor → List Line
  message_lines file_descriptor none = text_line (codes "not find") ∷ []
  message_lines file_descriptor (some descriptor) =
      text_line (codes "find")
      ∷ text_line (library.descriptor_text descriptor)
      ∷ text_line (codes "options :" ++ library.options_text (library.options descriptor))
      ∷ pool_line library (
          library.same_pool (library.pool file_descriptor)
            (library.pool (library.file (library.options_descriptor (library.options descriptor)))))
      ∷ parsed_lines library (library.options descriptor) (
          library.parse_from_string (library.new_message (library.pool file_descriptor) descriptor)
            (library.serialize_as_string (library.options descriptor)))
