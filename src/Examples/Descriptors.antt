-- ===== src/Examples/Descriptors.antt =====
-- The descriptor reader, over a small library.
use test_server.Base.{true, ◌∷◌, some, [], ℕ, List}
use test_server.DescriptorReader.{Library}

-- A library with one file, whose one pool has every type under its name; a type is its name.
abbrev small : Library
small = record {
  Tree = List (List ℕ);
  Stream = List ℕ;
  CodedStream = List ℕ;
  File = List ℕ;
  Pool = ℕ;
  Descriptor = List ℕ;
  Options = List ℕ;
  Message = List ℕ;
  Field = ℕ;
  new_tree = [];
  map_path = λ name path tree. path ∷ tree;
  open_stream = λ tree name. some name;
  coded_stream = λ stream. stream;
  import_file = λ tree name. some name;
  pool = λ f. 0;
  same_pool = λ p q. true;
  find_message_type = λ p name. some name;
  file = λ d. [];
  full_name = λ d. d;
  descriptor_text = λ d. d;
  options = λ d. d;
  options_text = λ o. o;
  options_descriptor = λ o. o;
  list_fields = λ o. [];
  serialize_as_string = λ o. o;
  new_message = λ p d. [];
  parse_from_string = λ m bytes. some bytes;
  message_text = λ m. m;
}
