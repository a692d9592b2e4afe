-- ===== src/Lib.antt =====
-- DUX: the semantic layer of an analytics stack. A query in a DAX-like language is parsed, its
-- names are resolved against a schema, SQL for DuckDB is emitted and run. This library models
-- the Go code that decides without touching a database: the schema with its designations
-- (semantic/schema.go), join inference over the declared relationships (semantic/join.go), the
-- syntax trees that both the resolver and the emitter read (parser/ast.go), the measures that a
-- query defines over those of the schema, with their dependencies (semantic/resolver.go), their
-- display formats (semantic/format.go), the filters that come with a query
-- (executor/extfilter.go), and the clustering of measures before SQL is emitted
-- (emitter/cluster.go). The filters are checked against the schema and become syntax of the
-- query; the resolver and the emitter look its names up in the same schema by the functions of
-- the join inference.
--
-- Base: texts as lists of bytes with the functions of package strings that the program calls,
-- Go maps as association lists, sets as lists, Boolean tests. strings.ToLower and
-- strings.EqualFold are modelled for text in ASCII; names outside it are out of the model.
--
-- Ast: the nodes of parser/ast.go, with a constructor for each alternative of the grammar and
-- one for a nil pointer.
--
-- Schema: the structs and the methods of semantic/schema.go. A method that mutates the schema
-- returns the new one. A loop over a map runs in the order of the association list, and
-- theorems hold for every order. Schema.Find is about the lookups, Schema.Hidden, HideTable and
-- HideColumn about the hidden designations, Schema.Dates about the date tables, Schema.Keys
-- about the keys that the introspection makes. IntrospectDuckDB and AddMeasureFromExpr are not
-- modelled: the first reads a database, the second calls the parser.
--
-- Result: the messages of semantic.SemanticError as constructors over the values they show.
--
-- Join: the names of tables, LeafEdge and uniqueSlice. Join.Explore is the breadth-first loop
-- that FilterReaches and GroupingReaches (Join.Reach) and ValidateFilterPaths (Join.Validate)
-- share. Join.Path is bfsJoin, where the panic on an empty join tree is a result of none,
-- Join.Infer is InferJoinPath.
--
-- Names, Measures: the tokens of names, and the measure maps of semantic/resolver.go.
-- Measures.Lookup restates FindMeasure as two lookups without regard to case; Measures.Define
-- is about PreResolveMeasures, Measures.Conflict about its error, Measures.Scan about
-- FindMeasureByName. On an error the map that the loop has filled so far is dropped, as Resolve
-- drops it.
--
-- Resolver: resolveMeasures, resolveMeasureExpr and resolveColRef. The state is what the walk
-- writes: measureState as two lists of definitions, and the writes to result.Refs. A definition
-- is told from another by its address, which stands for the pointer. The positions that an
-- error carries are left out. As in the code, the walk does not enter the rows of a table
-- constructor. Resolver.Walk shows the walk over an expression as a loop over its references,
-- Resolver.Targets where a reference leads, Resolver.Grounded is about walks without an error,
-- Resolver.Kept about what a walk leaves marked, Resolver.Circle about the error for a circle,
-- Resolver.Total about the fuel.
--
-- Format: the display formats of measures (semantic/format.go). Format.Valid is about Validate,
-- Format.Store about the store as a function of table and measure. A Go map that is nil is an
-- empty one.
--
-- Filters: the filters that come with a query (executor/extfilter.go). Filters.Resolve checks
-- them against the schema, Filters.Literals is literalFor, Filters.Build the constructors of
-- syntax, Filters.Predicate the two forms of a filter, Filters.Inject the search for the call
-- that takes the filters and for the base table, Filters.Apply the whole of
-- ApplyExternalFilters. The pointer to the call is modelled as the arguments of the call with
-- the effect of an assignment to them. An index out of range and a nil operand are a panic, a
-- result of none. Filters.Meaning gives the syntax that the filters use a truth value at a row,
-- over any comparison; Filters.Selects says without syntax what a filter selects.
-- Filters.Single, Typed and Accepted are about resolved filters, Filters.Refines and Chains
-- about predicates, Filters.Place says by a relation on the syntax which call is found and
-- changed, Filters.Inserted and Steps where its arguments get the filters, Filters.Arguments
-- what the new arguments say of a row, Filters.BaseTable and BaseFound which table is the base
-- table, Filters.Wrapped and Ends are about the other ends, Filters.Outcome about the whole.
-- Number formatting, ParseFloat and TrimSpace are a parameter, the record Strconv.
--
-- Emitter: the walks of the emitter over expressions (emitter/emitter.go, emitter/cluster.go).
-- Emitter.Literals is emitLiteral, Emitter.Subtrees aggSubtrees, Emitter.Tables
-- measureExprTables, Emitter.Plan planMeasures, which groups the measures of a query by the
-- tables they read. A cluster's place in the list stands for its pointer, since clusters are
-- only added at the end before the sort; a reference is a key of Refs by its address, as a
-- measure is, and one that the program makes itself by its text. emitsInline would panic on a
-- nil argument of COUNTROWS, which the parser never makes; the model answers true there.
-- Whether a call modifies the filter context (contextModifying, emitter/filterctx.go) is a
-- parameter. Emitter.Walks and Emitter.Ends are about the fuel of the walks, Emitter.Plan.Ends
-- about that of the plan, Emitter.Plan.Shares counts how often an index stands in the clusters,
-- Emitter.Plan.Partition is about the plan as a whole, Emitter.Plan.Filed and
-- Emitter.Plan.Homes about what a cluster holds, Emitter.Plan.Keys and Emitter.Plan.Own about
-- the keys of the clusters.
--
-- Tests: runs at concrete schemas.
--
-- Loops on a queue take fuel, and a result of none means that it ran out. The shared loop gets
-- one round for the source and one for each end of a relationship, since a key is queued once.
-- bfsJoin may queue a table again at the same depth, so its fuel is the number of states that
-- can descend from the sources when a state has as many successors as there are relationships
-- and is no deeper than there are tables. The visits in progress of resolveMeasures are of
-- different definitions, so it gets one for each definition; so do the walks of the emitter,
-- which do not enter a definition that they are visiting.
--
-- Not modelled: the lexer and the grammar, which a library interprets; the stores in SQLite and
-- TOML; the text that the emitter generates, its filter context and time intelligence, the runs
-- of SQL (executor/executor.go), the dashboards, the DuckLake service and the HTTP server.
mod Base
pub mod Ast
pub mod Names
pub mod Schema
pub mod Result
pub mod Join
pub mod Measures
pub mod Resolver
pub mod Filters
pub mod Format
pub mod Emitter
mod Tests
