-- ===== src/Examples/Messages.antt =====
-- Concrete messages to a RIB of one object.
use ari.Base.{true, false, nat_key, string_key}
use ari.Rib.Value.{boolean}
use ari.Rib.Store.{Rib, with_change_log_size, create, update, delete}
use ari.Cdap.{process_message}
use ari.Cdap.Session
use ari.Cdap.Session.{
  CdapSession, Numbered, requests, creates, reads, create_request, read_request, write_request,
  delete_request, requests-Numbered,
}
use ari.Cdap.Remote.{Answers, process_message-Answers}

abbrev rib : Rib
rib = (create (with_change_log_size 4) "/a" "flag" (boolean true) 1).0

abbrev session : CdapSession
session = Session.new

process_message-Answers_example :
    Answers 1
      (create rib "/a" "flag" (boolean false) 2)
      (process_message rib (create_request session "/a" "flag" (boolean false)).1 2)
    × Answers 1
        (update rib "/a" (boolean false) 2)
        (process_message rib (write_request session "/a" (boolean false)).1 2)
    × Answers 1 (delete rib "/a" 2) (process_message rib (delete_request session "/a").1 2)
process_message-Answers_example = process_message-Answers session rib "/a" "flag" (boolean false) 2
