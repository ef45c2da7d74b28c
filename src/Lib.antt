-- ===== src/Lib.antt =====
-- A verification library for twai-swarm: the parts of the swarm that decide something, modelled in
-- the language of the proof checker, with the theorems that make them correct.
--
-- The program runs agents (Architect, Coder, Critic, Documenter, Reviewer) over a repository. The
-- repository is indexed first (app/repo_indexer): the scopes of its files, what each module
-- exports, which type a variable has and which methods a class has are kept in indexes, over which
-- the references of the code are resolved. Several Coders may then work on one task, and the
-- Reviewer (app/agents/reviewer_repo.py) chooses one of their results.
--
-- Prelude: the tests, lists, dictionaries, sorting, texts and results that the parts share. A
-- Python dict is an association list that keeps the order of insertion, `sorted` is a stable
-- insertion sort, an exception is a value of `Outcome`.
--
-- Scope: app/repo_indexer/scope_resolution. Scope.antt has the value types of types.py, Scope/Tree
-- the ScopeTree of scope_tree.py and its builder, Scope/Positions the PositionIndex of
-- position_index.py, Scope/Bindings the LocalVarTypeIndex of local_var_type_index.py, Scope/Exports
-- the ModuleScopeIndex of module_scope_index.py, Scope/Dispatch the MethodDispatchIndex of
-- method_dispatch_index.py. The functions keep the names of the methods; a private attribute loses
-- its underscore; a loop of a method that is a definition of its own is named for what it does.
--
-- Actions and Finalize: the records of app/repo_indexer/actions.py that the resolver reads, and
-- finalize_batch of scope_resolution/finalize.py, which points the calls and bases of a batch at its
-- functions and classes. Finalize/Names has the index of qualified_name_index.py, Finalize/Adapter
-- the conversions of _adapter.py, Finalize/Imports the imports of a file and the closure of modules
-- that import each other, Finalize/Lookups the resolution by names and imports, Finalize/Chains the
-- types that are followed through the scopes, Finalize/Calls the searches for one call; Finalize.antt
-- has the loops. The cache of the method dispatch is passed from search to search. The strongly
-- connected components of the rustworkx library are a parameter, any function of nodes and edges; a
-- component is a list, whose order is that in which Python happens to iterate over the set. The
-- depth of a chain of types is the code's own bound, eight. Finalize/Indexed, Finalize/Anchors,
-- Finalize/Found, Finalize/Ending, Finalize/Searches, Finalize/Rewrites and Finalize/Linked are about
-- the parts, Finalize/Correct about the whole, Finalize/Receivers about self and super.
--
-- Orm: classify_orm_calls of scope_resolution/orm_classifier.py, which the resolver calls on the
-- rewritten edges. Orm/Tables has the indexes over the declared tables and the walk over the bases of
-- a class, Orm/Hints the classifiers of one hint, Orm.antt the loop over the hints and the emission.
-- The walk runs on fuel: it marks each class once, so the bases that are listed bound its steps. A
-- hint's uses of tables are a list that the loop emits; the cache of the walk, which repeats its
-- answers, is left out. Orm/Declared, Orm/Ending and Orm/Sound are about the parts, Orm/Bases and
-- Orm/Ancestors about the walk, Orm/Emitted about the loop, Orm/Correct about the whole.
--
-- Reviewer: run_reviewer_repo of app/agents/reviewer_repo.py, with its dataclasses in
-- Reviewer/Types. Reviewer/Tally is about the count of the pairwise results, Reviewer/Pairs about
-- the pairs and the two answers on each, Reviewer/Selection about the whole choice. The
-- deterministic gate and the judge, a model behind an API, are parameters: any function may stand
-- for them, and the judge's answer may depend on the calls before. Texts that are formatted for
-- people are kept as the data in them.
--
-- Critic: run_critic_repo of app/agents/critic_repo.py. Critic/Gate has the deterministic gate,
-- Critic/Judge the checklist and the reading of the judge's answer, Critic/Handoff the document for
-- the next Coder, whose lines are kept as the data that they are formatted from. How the tools end,
-- what package.json holds, what the model answers and json.loads are parameters of Critic/Types. So
-- is the reading of what a tool printed: the gate's own parsers of that text are not modelled, and the
-- parameter that stands for one may raise an exception. Critic/Clean and Critic/Raised are about the
-- tools, Critic/Grading and Critic/Document about the two parts of the output, Critic/Verdicts
-- and Critic/Correct about the whole.
--
-- RepoTask: RepoTaskWorkflow.run of app/workflows/repo_task.py. Its activities (clone, index,
-- Architect, Coder, Critic, Reviewer, Documenter, push) are parameters in one record. Each gets the
-- calls made so far, so it may answer differently each time; a parallel Coder gets the calls before
-- the parallel ones. The calls are part of the output. RepoTask/Continuation is about the loop of
-- Critic and Coder, RepoTask/Types the records and calls, RepoTask/Selection about Best-of-N, with
-- the Reviewer's model in the place of its activity, RepoTask/Calls about how often the models are
-- called, RepoTask/Gaps about the notes in the pull request.
--
-- Processes: app/repo_indexer/phases/process_extract.py, the phase that finds chains of calls that
-- cross communities. Processes/Graph has the call graph, Processes/Edges is about its edges,
-- Processes/Chains about the depth-first search, Processes/Entries about where it starts,
-- Processes/Order about the orders that the lists are sorted in, Processes/Emitted about what the
-- phase emits. The depth of the search is the code's own bound, eight.
--
-- Routing: app/router.py and the calls of app/agents/runner.py. The providers are parameters that
-- may answer by the number of calls before. Costs are exact, in hundred-millionths of a dollar, and
-- round(cost, 6) is a parameter that goes to a nearest millionth: the program rounds a binary
-- fraction, which decides the ties and, for large sums, carries an error that is left out here. Routing/Catalogue has the models and the table.
-- Routing/Routes is about the table, Routing/Fallback about who answers and who is billed.
--
-- Project: ProjectWorkflow of app/workflows/project.py, its signals and its approval gate. What
-- wakes the waiting workflow is a list of activations, each of them signals or the timer.
-- Project/Gate is about the gate, Project/Phases about the tasks of a run.
--
-- Fuel: the walks up and down the scope tree, and the merge of the methods along the classes, are
-- loops that the code does not bound. They run on fuel here. A step up strictly enlarges the range
-- and a step down strictly shrinks it, so the width that is left bounds the steps; the merge marks
-- one more class at each call, so the number of the classes listed as parents bounds its depth. The
-- theorems about them state that they return.
--
-- The modules named Examples, and Scope/Lookups, have the tests and each theorem at a concrete
-- input.
--
-- Not modelled: the API, the database, the prompts and the calls of models, Temporal's worker, the
-- extractors that parse source code, telemetry and deployment, which are input and output or rest on
-- libraries whose code is not in the repository. The detection of communities and the Coder's
-- sandbox are no part of this library either.
mod Prelude
pub mod Scope
pub mod Actions
pub mod Finalize
pub mod Orm
pub mod Reviewer
pub mod Critic
pub mod RepoTask
pub mod Processes
pub mod Routing
pub mod Project
