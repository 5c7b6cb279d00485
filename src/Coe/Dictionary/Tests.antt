-- ===== src/Coe/Dictionary/Tests.antt =====
-- The theorems about the object dictionary services at concrete inputs, and runs of them.
use servo_assistant.Base.{
  ℕ, ◌≤◌, ◌≡◌, ◌∙◌, refl, ℤ, pos, true, none, some, List, [], ◌∷◌, ◌++◌, length, replicate,
  length-replicate, take, arith,
}
use servo_assistant.Coe.Simulation.{overlay, length-overlay, answering, answering-KeepsSize}
use servo_assistant.Coe.Mailbox.{mbx_size, next_count}
use servo_assistant.Coe.Exchange.{exchange}
use servo_assistant.Coe.Layout.{mbx_length, clear_mbx}
use servo_assistant.Coe.Tables.{OdList, OeList, max_od_list}
use servo_assistant.Coe.Dictionary.{
  words_from, read_oe_from, read_oe_single, read_od_list, read_od_description, read_oe,
  is_info_response, info_request, index_count, words, put_words, add_fragment, trimmed, is_too_many,
  od_rounds, put_entry,
}
use servo_assistant.Coe.Dictionary.Contents.{add_fragment_lem}
use servo_assistant.Coe.Dictionary.Lists.{IsList}
use servo_assistant.Coe.Dictionary.Reads.{SaysItsLength, read_od_list_total, read_od_list_overread}

-- A list response of this length that names the objects 0x1000 and 0x1018, the last of its kind.
abbrev list_response : ℕ → List ℕ
list_response size =
    size ∷ 0 ∷ 0 ∷ 0 ∷ 0 ∷ 0x13 ∷ 0 ∷ 0x80 ∷ 2 ∷ 0 ∷ 0 ∷ 0 ∷ 1 ∷ 0 ∷ 0 ∷ 0x10 ∷ 0x18 ∷ 0x10 ∷ []

-- A list with its array of 1024 places.
abbrev empty_list : OdList
empty_list = record {
  slave = 0;
  entries = 0;
  index = replicate max_od_list 0;
  data_type = replicate max_od_list 0;
  object_code = replicate max_od_list 0;
  max_sub = replicate max_od_list 3;
  name = [];
}

answering-SaysItsLength : SaysItsLength (answering (list_response 12))
unfolding answering overlay clear_mbx
answering-SaysItsLength = record { low = λ s t i p. omega arith; high = λ s t i p. omega arith }

read_od_list_total_example :
    (wkc : ℤ) × (l : OdList) × (j : ℕ) × (read_od_list (answering (list_response 12)) 1 empty_list 0
      ≡ some (wkc, l, j))
    × (l.slave ≡ 1)
    × (l.entries ≤ 1024)
    × (length l.index ≡ 1024)
read_od_list_total_example =
    read_od_list_total (answering (list_response 12)) (answering-KeepsSize (list_response 12))
      answering-SaysItsLength 1 empty_list 0 (length-replicate {A = ℕ} 1024 0)

listed : ℤ × OdList × ℕ
unfolding read_od_list od_rounds add_fragment words put_words trimmed is_too_many index_count
    is_info_response info_request next_count answering overlay clear_mbx
listed = elim (read_od_list (answering (list_response 12)) 1 empty_list 0) [
  | none ↦ (pos 0, empty_list, 0)
  | some result ↦ result
]

lists : read_od_list (answering (list_response 12)) 1 empty_list 0 ≡ some listed
unfolding read_od_list od_rounds add_fragment words put_words trimmed is_too_many index_count
    is_info_response info_request next_count answering overlay clear_mbx listed
lists = refl

lists_two : (listed.1.entries ≡ 2) × (take 3 listed.1.index ≡ 0x1000 ∷ 0x1018 ∷ 0 ∷ [])
unfolding listed
lists_two = (refl, refl)

read_od_list_overread_example : read_od_list (answering (list_response 4)) 1 empty_list 0 ≡ none
unfolding answering overlay clear_mbx is_info_response
read_od_list_overread_example =
    read_od_list_overread (answering (list_response 4)) (answering-KeepsSize (list_response 4)) 1
      empty_list 0 (λ q t j. refl) (λ t j. refl) (λ t j. refl) (λ t j. omega arith)

-- The description of an object with three subindexes, and an entry of it.
abbrev description_response : List ℕ
description_response =
    14 ∷ 0 ∷ 0 ∷ 0 ∷ 0 ∷ 0x13 ∷ 0 ∷ 0x80 ∷ 4 ∷ 0 ∷ 0 ∷ 0 ∷ 0 ∷ 0x10 ∷ 7 ∷ 0 ∷ 3 ∷ 9 ∷ 65 ∷ 66 ∷ []

abbrev entry_response : List ℕ
entry_response =
    18 ∷ 0 ∷ 0 ∷ 0 ∷ 0 ∷ 0x13 ∷ 0 ∷ 0x80 ∷ 6 ∷ 0 ∷ 0 ∷ 0 ∷ 0 ∷ 0x10 ∷ 1 ∷ 7 ∷ 5 ∷ 0 ∷ 8 ∷ 0 ∷ 63 ∷ 0
    ∷ 65 ∷ 66 ∷ []

described : ℤ × OdList × ℕ
unfolding read_od_description
described = elim (read_od_description (answering description_response) 2 empty_list 0) [
  | none ↦ (pos 0, empty_list, 0)
  | some result ↦ result
]

describes : read_od_description (answering description_response) 2 empty_list 0 ≡ some described
unfolding read_od_description described exchange answering is_info_response clear_mbx
describes = refl

abbrev no_entries : OeList
no_entries = record {
  entries = 0;
  value_info = replicate 256 0;
  data_type = replicate 256 0;
  bit_length = replicate 256 0;
  obj_access = replicate 256 0;
  name = [];
}

entered : ℤ × OeList × ℕ
unfolding read_oe
entered = elim (read_oe (answering entry_response) 2 empty_list no_entries 0) [
  | none ↦ (pos 0, no_entries, 0)
  | some result ↦ result
]

enters : read_oe (answering entry_response) 2 empty_list no_entries 0 ≡ some entered
unfolding read_oe entered
enters = refl

-- The four subindexes of the object.
enters_four : (entered.1.entries ≡ 4) × (take 4 entered.1.data_type ≡ 5 ∷ 5 ∷ 5 ∷ 5 ∷ [])
unfolding entered read_oe read_oe_from read_oe_single put_entry info_request is_info_response
    exchange next_count answering overlay clear_mbx
enters_four = (refl, refl)

empty_list-IsList : IsList 0 0 empty_list
empty_list-IsList = record {
  owner = refl;
  counted = refl;
  fits = omega arith;
  places = length-replicate {A = ℕ} 1024 0;
}

-- The same response in a buffer.
abbrev list_buffer : List ℕ
list_buffer = overlay (list_response 12) (replicate mbx_size 0)

length-list_buffer : length list_buffer ≡ mbx_size
length-list_buffer =
    length-overlay (list_response 12) (replicate mbx_size 0) ∙ length-replicate {A = ℕ} mbx_size 0

long_enough : 8 ≤ mbx_length list_buffer
unfolding overlay
long_enough = omega arith

short_enough : mbx_length list_buffer ≤ 1480
unfolding overlay
short_enough = omega arith

add_fragment_lem_example :
    (l' : OdList) × (add_fragment true 0 list_buffer empty_list ≡ some (l'.entries, l'))
    × (take l'.entries l'.index
        ≡ take 1024
            (take 0 empty_list.index ++ words_from list_buffer 14 (index_count true list_buffer)))
add_fragment_lem_example =
    add_fragment_lem true 0 0 list_buffer empty_list empty_list-IsList length-list_buffer
      long_enough short_enough
