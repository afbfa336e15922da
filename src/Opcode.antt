-- ===== src/Opcode.antt =====
-- Opcode of src/chunk.hpp: the enumeration, its values as bytes, and `static_cast<Opcode>`.
use cpplox.Prelude.{ℕ, ◌<◌, ◌≡◌, refl, Option, none, some, ◌==◌, if◌then◌else◌, arith}

pub data Opcode : Type 0 where
  constant nil true_ false_ pop get_local set_local get_global : Opcode
  define_global set_global get_upvalue set_upvalue get_property set_property get_super equal :
      Opcode
  greater less add subtract multiply divide not_ negate : Opcode
  print jump jump_if_false loop call invoke super_invoke closure : Opcode
  close_upvalue return_ class_ inherit method : Opcode

-- The enumerators count from 0 in the order of MOTTS_LOX_OPCODE_NAMES.
unfoldable pub opcode_byte : Opcode → ℕ
opcode_byte constant = 0
opcode_byte nil = 1
opcode_byte true_ = 2
opcode_byte false_ = 3
opcode_byte pop = 4
opcode_byte get_local = 5
opcode_byte set_local = 6
opcode_byte get_global = 7
opcode_byte define_global = 8
opcode_byte set_global = 9
opcode_byte get_upvalue = 10
opcode_byte set_upvalue = 11
opcode_byte get_property = 12
opcode_byte set_property = 13
opcode_byte get_super = 14
opcode_byte equal = 15
opcode_byte greater = 16
opcode_byte less = 17
opcode_byte add = 18
opcode_byte subtract = 19
opcode_byte multiply = 20
opcode_byte divide = 21
opcode_byte not_ = 22
opcode_byte negate = 23
opcode_byte print = 24
opcode_byte jump = 25
opcode_byte jump_if_false = 26
opcode_byte loop = 27
opcode_byte call = 28
opcode_byte invoke = 29
opcode_byte super_invoke = 30
opcode_byte closure = 31
opcode_byte close_upvalue = 32
opcode_byte return_ = 33
opcode_byte class_ = 34
opcode_byte inherit = 35
opcode_byte method = 36

-- The enumerator of a byte; a byte that is no enumerator's meets the `default` of each `switch`.
unfoldable pub byte_opcode : ℕ → Option Opcode
byte_opcode b =
    if b == 0
    then some constant
    else if b == 1
    then some nil
    else if b == 2
    then some true_
    else if b == 3
    then some false_
    else if b == 4
    then some pop
    else if b == 5
    then some get_local
    else if b == 6
    then some set_local
    else if b == 7
    then some get_global
    else if b == 8
    then some define_global
    else if b == 9
    then some set_global
    else if b == 10
    then some get_upvalue
    else if b == 11
    then some set_upvalue
    else if b == 12
    then some get_property
    else if b == 13
    then some set_property
    else if b == 14
    then some get_super
    else if b == 15
    then some equal
    else if b == 16
    then some greater
    else if b == 17
    then some less
    else if b == 18
    then some add
    else if b == 19
    then some subtract
    else if b == 20
    then some multiply
    else if b == 21
    then some divide
    else if b == 22
    then some not_
    else if b == 23
    then some negate
    else if b == 24
    then some print
    else if b == 25
    then some jump
    else if b == 26
    then some jump_if_false
    else if b == 27
    then some loop
    else if b == 28
    then some call
    else if b == 29
    then some invoke
    else if b == 30
    then some super_invoke
    else if b == 31
    then some closure
    else if b == 32
    then some close_upvalue
    else if b == 33
    then some return_
    else if b == 34
    then some class_
    else if b == 35
    then some inherit
    else if b == 36
    then some method
    else none

pub opcode_byte-lt : (o : Opcode) → opcode_byte o < 256
unfolding opcode_byte
opcode_byte-lt constant = omega arith
opcode_byte-lt _ = omega arith

pub byte_opcode-opcode_byte : (o : Opcode) → byte_opcode (opcode_byte o) ≡ some o
unfolding byte_opcode opcode_byte
byte_opcode-opcode_byte constant = refl
byte_opcode-opcode_byte _ = refl
