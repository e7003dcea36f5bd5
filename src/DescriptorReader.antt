-- ===== src/DescriptorReader.antt =====
-- main of pbparser/main.cpp. The protobuf library, which the program only calls, is a parameter;
-- `none` is a null pointer, or false where the library says whether it could parse.
pub mod Reading
use test_server.Base.{
  length, ◌++◌, none, ◌∷◌, codes, if◌then◌else◌, some, List, Bool, Option, [], ℕ,
}

pub record Library : Type 1 where
  pub Tree : Type 0
  pub Stream : Type 0
  pub CodedStream : Type 0
  pub File : Type 0
  pub Pool : Type 0
  pub Descriptor : Type 0
  pub Options : Type 0
  pub Message : Type 0
  pub Field : Type 0
  pub new_tree : Tree
  pub map_path : List ℕ → List ℕ → Tree → Tree
  pub open_stream : Tree → List ℕ → Option Stream
  -- The constructor of CodedInputStream; `none` if it follows a null pointer.
  pub coded_stream : Option Stream → Option CodedStream
  pub import_file : Tree → List ℕ → Option File
  pub pool : File → Pool
  pub same_pool : Pool → Pool → Bool
  pub find_message_type : Pool → List ℕ → Option Descriptor
  pub file : Descriptor → File
  pub full_name : Descriptor → List ℕ
  pub descriptor_text : Descriptor → List ℕ
  pub options : Descriptor → Options
  pub options_text : Options → List ℕ
  pub options_descriptor : Options → Descriptor
  pub list_fields : Options → List Field
  pub serialize_as_string : Options → List ℕ
  -- GetPrototype of a DynamicMessageFactory over a pool, and New.
  pub new_message : Pool → Descriptor → Message
  pub parse_from_string : Message → List ℕ → Option Message
  pub message_text : Message → List ℕ

-- A line on the standard output: a text, or a text with a number behind it.
pub data Line : Type 0 where
  text_line : List ℕ → Line
  number_line : List ℕ → ℕ → Line

module _ (library : Library) where
  unfoldable pub source_tree : library.Tree
  source_tree =
      library.map_path [] (codes "/home/knightwu/projects/thirdparty/staging/include")
        (library.map_path [] (codes "/home/knightwu/projects/proto/") library.new_tree)

  -- Whether the pools are the same one.
  abbrev pub pool_line : Bool → Line
  pool_line same = text_line (if same then codes "pool equal" else codes "pool not equal")

  abbrev pub option_lines : Option library.Descriptor → List Line
  option_lines none = text_line (codes "not find option descriptor") ∷ []
  option_lines (some option_descriptor) = []

  -- What is printed of the options, parsed into a message of the type that was looked for.
  abbrev pub parsed_lines : library.Options → Option library.Message → List Line
  parsed_lines options none = text_line (codes "Found invalid proto option data for: ") ∷ []
  parsed_lines options (some dynamic_options) =
      text_line (codes "options:" ++ library.message_text dynamic_options)
      ∷ number_line (codes "fields.size:") (length (library.list_fields options))
      ∷ []

  -- Behind `if (descriptor)`.
  unfoldable pub descriptor_lines : library.File → library.Descriptor → List Line
  descriptor_lines file_descriptor descriptor =
      let options = library.options descriptor in
      let option_type = library.options_descriptor options in
      let pool = library.pool (library.file option_type) in
      let dynamic_options = library.new_message (library.pool file_descriptor) descriptor in
      (text_line (codes "find")
        ∷ text_line (library.descriptor_text descriptor)
        ∷ text_line (codes "options :" ++ library.options_text options)
        ∷ pool_line (library.same_pool (library.pool file_descriptor) pool)
        ∷ [])
      ++ (option_lines (library.find_message_type pool (library.full_name option_type))
          ++ parsed_lines options
              (library.parse_from_string dynamic_options (library.serialize_as_string options)))

  unfoldable pub found_lines : library.File → Option library.Descriptor → List Line
  unfolding descriptor_lines
  found_lines file_descriptor none = text_line (codes "not find") ∷ []
  found_lines file_descriptor (some descriptor) = descriptor_lines file_descriptor descriptor

  abbrev pub message_name : List ℕ
  message_name = codes "helloworld.HelloRequest"

  -- By what Import gave: file_descriptor->pool() follows it.
  unfoldable pub imported_lines : Option library.File → Option (List Line)
  unfolding found_lines
  imported_lines none = none
  imported_lines (some file_descriptor) = some (
      found_lines file_descriptor
        (library.find_message_type (library.pool file_descriptor) message_name))

  -- By what became of the stream.
  unfoldable pub stream_lines :
      Option library.CodedStream → Option library.File → Option (List Line)
  unfolding imported_lines
  stream_lines none imported = none
  stream_lines (some code_input_stream) imported = imported_lines imported

  -- main(argc, argv): what is printed, or `none` for undefined behaviour. The file xx.proto is
  -- imported first, and nothing is made of it.
  unfoldable pub reader_main : Option (List Line)
  unfolding stream_lines source_tree
  reader_main =
      stream_lines
        (library.coded_stream (library.open_stream source_tree (codes "helloworld.proto")))
        (library.import_file source_tree (codes "helloworld.proto"))
